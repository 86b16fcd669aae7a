-- ===== src/RemediationPolicy/Cycle.antt =====
-- internal/controller/remediationpolicy_controller.go: remediateIncident and processIncidents, over
-- the engines of the correlator and of the remediation. `W` is the state of everything outside.
pub mod Ways
pub mod Induction
pub mod Bounds
pub mod Opening
pub mod Scope
pub mod Safety
use aotanami.Remediation.Branch.{branch_name}
use aotanami.Remediation.Model.{Plan, Finding}
use aotanami.Remediation.Fixes.{LlmResponse}
use aotanami.Remediation.Apply.{
  generate_plan, apply_plan, get_gitops_engine, register_gitops_engine, Engine, failed, applied,
  PullRequestResult, GitOps, Applied,
}
use aotanami.RemediationPolicy.{
  incident_to_finding, in_scope, min_severity, max_prs, Repository, severity_order, Policy,
  parse_repo_url,
}
use aotanami.Prelude.{
  filter, codes, ◌++◌, ◌-◌, not, ltb, none, leb, length, ◌+◌, ◌||◌, false, ◌∷◌, text_eq, some, [],
  true, if◌then◌else◌, any, Bool, Option, Text, List, ℕ,
}
use aotanami.Correlator.{Engine as Correlator, Incident, resolve_incident, get_open_incidents}

-- What a cycle changes: the correlator, the world, and the branches with an open pull request.
pub record State (W : Type 0) : Type 0 where
  pub correlator : Correlator
  pub world : W
  pub branches : List (Text × Text)

-- The flags that remediateIncident returns, and the state after it.
pub record Outcome (W : Type 0) : Type 0 where
  pub opened : Bool
  pub charged : Bool
  pub state : State W

-- The counters of the loop, and the state.
pub record Tally (W : Type 0) : Type 0 where
  pub processed : ℕ
  pub prs_created : ℕ
  pub state : State W

-- What processIncidents returns, and what it leaves.
pub record Cycle (W : Type 0) : Type 0 where
  pub prs_created : ℕ
  pub open_prs : ℕ
  pub state : State W

-- The write of an entry of existingBranches.
abbrev set_branch : Text → Text → List (Text × Text) → List (Text × Text)
set_branch branch url branches = (branch, url) ∷ filter (λ b. not (text_eq b.0 branch)) branches

abbrev pub branches_from : List PullRequestResult → List (Text × Text) → List (Text × Text)
branches_from [] branches = branches
branches_from (pr ∷ prs) branches = branches_from prs (set_branch pr.branch pr.url branches)

abbrev pub count : Bool → ℕ
count true = 1
count false = 0

-- The lookup in existingBranches.
pub has_branch : Text → List (Text × Text) → Bool
has_branch branch branches = any (λ b. text_eq b.0 branch) branches

module _ {W : Type 0} where
  -- The count and the branches of a list of pull requests; an error counts as no pull request.
  abbrev pub snapshot_of : Option (List PullRequestResult) × W → ℕ × List (Text × Text) × W
  snapshot_of (none, w) = (0, [], w)
  snapshot_of (some prs, w) = (length prs, branches_from prs [], w)

  abbrev pub list_with : Text → Text → W → Option (GitOps W) → ℕ × List (Text × Text) × W
  list_with owner repo w none = (0, [], w)
  list_with owner repo w (some g) = snapshot_of (g.list_open_prs owner repo w)

  -- snapshotOpenPRs
  unfoldable pub snapshot_open_prs : Engine W → Text → Text → W → ℕ × List (Text × Text) × W
  snapshot_open_prs e owner repo w =
      if text_eq owner [] || text_eq repo []
      then (0, [], w)
      else list_with owner repo w (get_gitops_engine e owner repo)

  -- ensureGitOpsEngineFromSecret, given the GitHub engine of the secret's token if there is one.
  unfoldable pub ensure_gitops_engine : Option (GitOps W) → Text → Text → Engine W → Engine W
  ensure_gitops_engine none owner repo e = e
  ensure_gitops_engine (some g) owner repo e =
      if text_eq owner [] || text_eq repo []
      then e
      else register_gitops_engine (owner ++ codes "/" ++ repo) g e

  abbrev pub mark_resolved : ℕ → Incident → State W → State W
  mark_resolved now i s = record s { correlator = resolve_incident now i.id s.correlator }

  -- The end of remediateIncident, by what ApplyPlan returned.
  pub after_apply : ℕ → Incident → Text → State W → Applied × W → Outcome W
  after_apply now i branch s (failed, w) = record {
    opened = false;
    charged = true;
    state = record s { world = w };
  }
  after_apply now i branch s (applied none, w) = record {
    opened = false;
    charged = true;
    state = mark_resolved now i (record s { world = w });
  }
  after_apply now i branch s (applied (some r), w) = record {
    opened = true;
    charged = true;
    state = mark_resolved now i (record s { world = w; branches = (branch, r.url) ∷ s.branches });
  }

  module _ (unmarshal : Text → Option LlmResponse) (engine : Engine W) (now : ℕ) (policy : Policy)
      (paths : List Text) (owner repo : Text) where
    -- remediateIncident after GeneratePlan.
    pub after_plan : Incident → Text → State W → Option Plan × W → Outcome W
    unfolding after_apply
    after_plan i branch s (none, w) = record {
      opened = false;
      charged = true;
      state = record s { world = w };
    }
    after_plan i branch s (some plan, w) =
        if policy.dry_run
        then record { opened = false; charged = true; state = record s { world = w } }
        else after_apply now i branch s (apply_plan engine plan owner repo w)

    -- remediateIncident at an open branch.
    abbrev pub skip_duplicate : Incident → State W → Outcome W
    skip_duplicate i s = record {
      opened = false;
      charged = false;
      state = if policy.dry_run then s else mark_resolved now i s;
    }

    -- remediateIncident behind the severity filter.
    pub remediate_finding : Incident → Finding → State W → Outcome W
    unfolding after_plan has_branch
    remediate_finding i f s =
        let branch = branch_name f.resource_name f.resource_namespace f.title in
        if has_branch branch s.branches
        then skip_duplicate i s
        else after_plan i branch s (generate_plan unmarshal engine now f paths s.world)

    abbrev pub at_severity : Incident → State W → Option ℕ → Outcome W
    at_severity i s none = record { opened = false; charged = false; state = s }
    at_severity i s (some sev) =
        if ltb (min_severity policy) sev
        then record { opened = false; charged = false; state = s }
        else remediate_finding i (incident_to_finding i) s

    -- remediateIncident
    pub remediate_incident : Incident → State W → Outcome W
    unfolding remediate_finding
    remediate_incident i s = at_severity i s (severity_order i.severity)

    abbrev pub tallied : Tally W → Outcome W → Tally W
    tallied t o = record {
      processed = t.processed + count o.charged;
      prs_created = t.prs_created + count o.opened;
      state = o.state;
    }

    -- The body of the loop of processIncidents. After its `break` no incident changes anything, as
    -- `processed` stays at the budget.
    pub visit : ℕ → Incident → Tally W → Tally W
    unfolding remediate_incident
    visit budget i t =
        if leb budget t.processed || not (in_scope policy i)
        then t
        else tallied t (remediate_incident i t.state)

    -- The loop.
    pub visit_each : ℕ → List Incident → Tally W → Tally W
    unfolding visit
    visit_each budget [] t = t
    visit_each budget (i ∷ is) t = visit_each budget is (visit budget i t)

    abbrev pub idle : ℕ → State W → Cycle W
    idle n s = record { prs_created = 0; open_prs = n; state = s }

    abbrev pub cycle_of : ℕ → Tally W → Cycle W
    cycle_of n t = record { prs_created = t.prs_created; open_prs = n; state = t.state }

    -- processIncidents by the open incidents and the snapshot of the open pull requests.
    pub process_open : List Incident → Correlator → ℕ × List (Text × Text) × W → Cycle W
    unfolding visit_each
    process_open [] correlator (n, branches, w) =
        idle n (record { correlator = correlator; world = w; branches = branches })
    process_open (i ∷ is) correlator (n, branches, w) =
        let s : State W = record { correlator = correlator; world = w; branches = branches } in
        if leb (max_prs policy) n
        then idle n s
        else cycle_of n (
            visit_each (max_prs policy - n) (i ∷ is)
              (record { processed = 0; prs_created = 0; state = s }))

    -- processIncidents, once the engine of the repository's secret is registered.
    unfoldable pub process_incidents_of : Correlator → W → Cycle W
    unfolding process_open snapshot_open_prs
    process_incidents_of correlator w =
        process_open (get_open_incidents correlator) correlator
          (snapshot_open_prs engine owner repo w)

  -- processIncidents
  unfoldable pub process_incidents :
      (Text → Option LlmResponse)
      → Engine W
      → ℕ
      → Policy
      → Repository
      → Option (GitOps W)
      → Correlator
      → W
      → Cycle W
  unfolding process_incidents_of parse_repo_url
  process_incidents unmarshal engine now policy repository secret correlator w =
      let (owner, repo) = parse_repo_url repository.url in
      process_incidents_of unmarshal (ensure_gitops_engine secret owner repo engine) now policy
        repository.paths owner repo correlator w
