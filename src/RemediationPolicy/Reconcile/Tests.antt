-- ===== src/RemediationPolicy/Reconcile/Tests.antt =====
-- Runs of a policy over one incident. The world is the log of the submitted pull requests, and the
-- policy that is stored.
use aotanami.Prelude.{
  ◌∷◌, ◌≡◌, [], some, none, codes, refl, text_eq, has_prefix, split, trim_suffix, arith, inr, inl,
}
use aotanami.Remediation.Apply.{
  GitOps, Engine, gitops_pr, generate_plan, apply_plan, get_gitops_engine,
}
use aotanami.Remediation.Branch.{branch_name, sanitize_branch_name}
use aotanami.Remediation.Json.{extract_json}
use aotanami.Remediation.Paths.{filter_fixes_to_allowed_paths, valid_fix_file_path}
use aotanami.Correlator.{resolve_incident, get_open_incidents}
use aotanami.RemediationPolicy.{min_severity, is_targeted, severity_order, max_prs, in_scope}
use aotanami.RemediationPolicy.Cycle.{ensure_gitops_engine, process_incidents}
use aotanami.RemediationPolicy.Tests.{decode, two_events, policy, repository, Log}
use aotanami.RemediationPolicy.Reconcile.{
  RemediationPolicy, GitOpsRepository, PolicyApi, PolicyClock, Engines, present, absent, reconcile,
}
use aotanami.RemediationPolicy.Reconcile.Guards.{IsUntouched, reconcile-IsUntouched}

abbrev idle : RemediationPolicy
idle = record {
  generation = 1;
  gitops_repository = codes "shop";
  spec = policy;
  status = record {
    phase = [];
    remediations_applied = 6;
    open_prs = 0;
    last_run = none;
    observed_generation = 0;
    conditions = [];
  };
}

abbrev World : Type 0
World = Log × RemediationPolicy

abbrev stored : World → RemediationPolicy
stored w = w.1

abbrev hub : GitOps World
hub = record {
  create_pull_request = λ pr w. (
    some (record { number = 1; url = codes "u"; branch = pr.head_branch; created_at = 0 }),
    (pr ∷ w.0, w.1),
  );
  list_open_prs = λ owner repo w. (some [], w);
}

abbrev engine : Engine World
engine = record {
  llm_client = some (λ finding allowed w. (some (codes "{}"), w));
  gitops_engine = some hub;
  strategy = gitops_pr;
  max_blast_radius = 10;
  gitops_registry = [];
}

abbrev shop : GitOpsRepository
shop = record { name = codes "shop"; phase = codes "Synced"; spec = repository }

abbrev api : PolicyApi World
api = record {
  get_repository = λ namespace name. present shop;
  get_policy = λ namespace name. present tt;
  secret_engine = λ r. none;
  update_status = λ q w. (none, (w.0, q));
}

-- The target policies are gone.
abbrev no_targets : PolicyApi World
no_targets = record api { get_policy = λ namespace name. absent }

abbrev clock : PolicyClock
clock = record {
  started_at = 30;
  connected_at = 31;
  checked_at = 32;
  cycle_at = 33;
  run_at = 34;
  updated_at = 35;
}

abbrev engines : Engines World
engines = record { correlator = some two_events.engine; remediation = some engine }

abbrev start : World
start = ([], idle)

seventh :
    let run = reconcile decode api clock (present idle) engines start in
    ((stored run.world).status.remediations_applied ≡ 7) × ((stored run.world).status.open_prs ≡ 1)
unfolding reconcile process_incidents text_eq severity_order get_open_incidents max_prs trim_suffix
    get_gitops_engine ensure_gitops_engine extract_json has_prefix split valid_fix_file_path
    filter_fixes_to_allowed_paths in_scope is_targeted apply_plan branch_name sanitize_branch_name
    resolve_incident min_severity generate_plan
seventh = (refl, refl)

reconcile-IsUntouched_example :
    IsUntouched no_targets idle engines start
      (reconcile decode no_targets clock (present idle) engines start)
reconcile-IsUntouched_example =
    reconcile-IsUntouched decode no_targets clock idle engines start
      (inr (codes "base", inl refl, λ a h. absurd (ground (arith, h))))
