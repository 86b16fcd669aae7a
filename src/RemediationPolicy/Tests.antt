-- ===== src/RemediationPolicy/Tests.antt =====
-- A cycle over one incident, with a repository that keeps a log of the submitted pull requests.
use aotanami.RemediationPolicy.Cycle.Opening.{opened_iff, Opens}
use aotanami.Remediation.Paths.{filter_fixes_to_allowed_paths, valid_fix_file_path}
use aotanami.Remediation.Json.{extract_json}
use aotanami.Remediation.Apply.Requests.{GitOpsKeeps, IsSafeRequest}
use aotanami.RemediationPolicy.Cycle.Safety.{
  process_incidents_is_safe, ListKeeps, preview_submits_nothing,
}
use aotanami.Remediation.Branch.{branch_name, sanitize_branch_name}
use aotanami.RemediationPolicy.Cycle.Scope.{incident_is_left_alone}
use aotanami.Remediation.Fixes.{LlmResponse}
use aotanami.Correlator.{
  resolve_incident, get_open_incidents, severity_order, new_engine, ingest, Event, Incident,
  security_violation,
}
use aotanami.Correlator.Unique.{System, start, Reach, here, next, ingested}
use aotanami.Remediation.Apply.{
  generate_plan, apply_plan, get_gitops_engine, PullRequest, GitOps, Engine, gitops_pr,
}
use aotanami.RemediationPolicy.Cycle.{
  remediate_incident, State, ensure_gitops_engine, process_incidents_of, process_incidents,
}
use aotanami.RemediationPolicy.{
  min_severity, is_targeted, severity_order as policy_order, max_prs, in_scope, Repository, Policy,
}
use aotanami.Prelude.{
  ◌↔◌, split, has_prefix, trim_suffix, inl, Elem, refl, true, All, ◌≡◌, arith, length, none, false,
  text_eq, Option, [], List, codes, some, Text, ◌∷◌,
}

abbrev violation : Event
violation = record {
  type = security_violation;
  source = codes "scan";
  severity = codes "high";
  security_policy = codes "base";
  security_policy_namespace = codes "prod";
  namespace = codes "prod";
  resource = codes "web";
  resource_kind = codes "Pod";
  message = codes "runs as root";
  timestamp = 10;
}

abbrev second : Event
second = record violation { timestamp = 20 }

abbrev incident : Incident
incident = record {
  id = 1;
  severity = codes "high";
  events = violation ∷ second ∷ [];
  namespace = codes "prod";
  resource = codes "web";
  created_at = 20;
  updated_at = 20;
  resolved = false;
}

abbrev pub two_events : System
two_events = record {
  engine = record {
    events = violation ∷ second ∷ [];
    incidents = incident ∷ [];
    window = 100;
    incident_seq = 1;
  };
  now = 20;
}

two_events-Reach : Reach (start 100) two_events
unfolding ingest new_engine text_eq severity_order
two_events-Reach =
    next (next here (ingested 10 violation (omega arith))) (ingested 20 second (omega arith))

abbrev pub decode : Text → Option LlmResponse
decode json = some (record {
  analysis = codes "root";
  fixes =
      (record {
        file_path = codes "web.yaml";
        description = codes "run as a user";
        patch = codes "kind: Pod";
        operation = codes "update";
      })
      ∷ [];
  risk_assessment = [];
  risk_score = none;
})

-- The world is the log.
abbrev pub Log : Type 0
Log = List PullRequest

abbrev hub : GitOps Log
hub = record {
  create_pull_request = λ pr log. (
    some (record { number = 1; url = codes "u"; branch = pr.head_branch; created_at = 0 }),
    pr ∷ log,
  );
  list_open_prs = λ owner repo log. (some [], log);
}

abbrev engine : Engine Log
engine = record {
  llm_client = some (λ finding allowed log. (some (codes "{}"), log));
  gitops_engine = some hub;
  strategy = gitops_pr;
  max_blast_radius = 10;
  gitops_registry = [];
}

abbrev pub policy : Policy
policy = record {
  namespace = codes "prod";
  target_policies = codes "base" ∷ [];
  severity_filter = [];
  max_concurrent_prs = 0;
  dry_run = false;
}

abbrev pub repository : Repository
repository = record { url = codes "https://github.com/acme/shop.git"; paths = [] }

one_pull_request :
    let c = process_incidents decode engine 30 policy repository none two_events.engine [] in
    (c.prs_created ≡ 1) × (length c.state.world ≡ 1) × (get_open_incidents c.state.correlator ≡ [])
unfolding process_incidents text_eq policy_order get_open_incidents max_prs trim_suffix
    get_gitops_engine ensure_gitops_engine extract_json has_prefix split valid_fix_file_path
    filter_fixes_to_allowed_paths in_scope is_targeted apply_plan branch_name sanitize_branch_name
    resolve_incident min_severity generate_plan
one_pull_request = (refl, refl, refl)

abbrev acme : Text
acme = codes "acme"

abbrev shop : Text
shop = codes "shop"

-- A policy of another team.
abbrev other_policy : Policy
other_policy = record policy { namespace = codes "dev" }

incident_is_left_alone_example :
    let c = process_incidents_of decode engine 30 other_policy [] acme shop two_events.engine [] in
    Elem incident c.state.correlator.incidents
unfolding in_scope text_eq
incident_is_left_alone_example =
    incident_is_left_alone decode engine 30 other_policy [] acme shop incident 100 []
      two_events-Reach (inl refl) refl

abbrev preview : Policy
preview = record policy { dry_run = true }

-- Every pull request in the log is safe.
abbrev IsSafeLog : Log → Type 0
IsSafeLog = All (IsSafeRequest acme shop)

hub-GitOpsKeeps : GitOpsKeeps IsSafeLog acme shop (get_gitops_engine engine acme shop)
unfolding get_gitops_engine
hub-GitOpsKeeps = ((λ pr log safe h. (safe, h)), λ log h. h)

process_incidents_is_safe_example :
    let c = process_incidents_of decode engine 30 policy [] acme shop two_events.engine [] in
    All (IsSafeRequest acme shop) c.state.world
process_incidents_is_safe_example =
    process_incidents_is_safe IsSafeLog decode engine 30 policy [] acme shop two_events.engine []
      (λ finding allowed log h. h) hub-GitOpsKeeps tt

hub-ListKeeps : ListKeeps (λ log. log ≡ []) acme shop (get_gitops_engine engine acme shop)
unfolding get_gitops_engine
hub-ListKeeps = λ log h. h

preview_submits_nothing_example :
    let c = process_incidents_of decode engine 30 preview [] acme shop two_events.engine [] in
    c.state.world ≡ []
preview_submits_nothing_example =
    preview_submits_nothing (λ log. log ≡ []) decode engine 30 preview [] acme shop
      two_events.engine [] (λ finding allowed log h. h) hub-ListKeeps refl refl

abbrev idle_state : State Log
idle_state = record { correlator = two_events.engine; world = []; branches = [] }

opened_iff_example :
    ((remediate_incident decode engine 30 policy [] acme shop incident idle_state).opened ≡ true)
    ↔ Opens decode engine 30 policy [] acme shop incident idle_state
opened_iff_example = opened_iff decode engine 30 policy [] acme shop incident idle_state
