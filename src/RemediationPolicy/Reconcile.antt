-- ===== src/RemediationPolicy/Reconcile.antt =====
-- internal/controller/remediationpolicy_controller.go: Reconcile, around the cycle. `W` is the state of
-- everything outside; what the Kubernetes API answers to a read in this run is a parameter. The
-- recorder's events, in Reconcile and in the cycle, metrics and logs are left out. An int32 is its bit
-- pattern, and is printed as one below 2^31.
pub mod Accounts
pub mod Guards
mod Tests
use aotanami.Prelude.{
  ◌++◌, ◌∷◌, ◌*◌, ◌+◌, ◌%◌, List, [], Option, none, some, ℕ, Text, Bool, true, false, codes,
  decimal, quote, join_by, map,
}
use aotanami.Conditions.{
  Condition, ConditionStatus, condition_true, condition_false, condition_unknown, set,
}
use aotanami.Correlator.{Engine as Correlator}
use aotanami.Remediation.Apply.{GitOps, Engine}
use aotanami.Remediation.Fixes.{LlmResponse}
use aotanami.RemediationPolicy.{Policy, Repository, parse_repo_url}
use aotanami.RemediationPolicy.Cycle.{ensure_gitops_engine, process_incidents}
use aotanami.SecurityPolicy.Reconcile.{
  Outcome, requeue_after, failed_with, warning, normal, KubeEvent,
}

-- RemediationPolicyStatus
pub record RemediationPolicyStatus : Type 0 where
  pub phase : Text
  pub remediations_applied : ℕ
  pub open_prs : ℕ
  pub last_run : Option ℕ
  pub observed_generation : ℕ
  pub conditions : List Condition

-- The fields of RemediationPolicy that Reconcile reads; `spec` holds its namespace too.
pub record RemediationPolicy : Type 0 where
  pub generation : ℕ
  pub gitops_repository : Text
  pub spec : Policy
  pub status : RemediationPolicyStatus

-- The fields of GitOpsRepository that Reconcile reads.
pub record GitOpsRepository : Type 0 where
  pub name : Text
  pub phase : Text
  pub spec : Repository

-- What GET of an object returns.
pub data Got (A : Type 0) : Type 0 where
  present : A → Got A
  absent : Got A
  unreadable : Text → Got A

-- The engines of the reconciler, `none` for nil.
pub record Engines (W : Type 0) : Type 0 where
  pub correlator : Option Correlator
  pub remediation : Option (Engine W)

pub record PolicyRun (W : Type 0) : Type 0 where
  pub world : W
  pub engines : Engines W
  pub outcome : Outcome

-- The answers to the reads, by namespace and name, the GitHub engine of a repository's secret, and the
-- update of a status.
pub record PolicyApi (W : Type 0) : Type 0 where
  pub get_repository : Text → Text → Got GitOpsRepository
  pub get_policy : Text → Text → Got Unit
  pub secret_engine : GitOpsRepository → Option (GitOps W)
  pub update_status : RemediationPolicy → W → Option Text × W

-- The readings of the clock.
pub record PolicyClock : Type 0 where
  pub started_at : ℕ
  pub connected_at : ℕ
  pub checked_at : ℕ
  pub cycle_at : ℕ
  pub run_at : ℕ
  pub updated_at : ℕ

-- The target policies that are missing, or the error of one that cannot be read.
pub data Targets : Type 0 where
  all_read : List Text → Targets
  stopped_at : Text → Targets

abbrev pub with_missing : Text → Targets → Targets
with_missing name (all_read names) = all_read (name ∷ names)
with_missing name (stopped_at e) = stopped_at e

abbrev pub repository_not_found : Text → Text
repository_not_found name = codes "GitOpsRepository " ++ quote name ++ codes " not found"

abbrev pub retry_after : ℕ
retry_after = 2 * 60 * 1000000000

abbrev pub next_cycle : ℕ
next_cycle = 5 * 60 * 1000000000

module _ {W : Type 0} (unmarshal : Text → Option LlmResponse) (api : PolicyApi W)
    (clock : PolicyClock) where
  abbrev pub at_target : Text → Got Unit → Targets → Targets
  at_target name (present tt) rest = rest
  at_target name absent rest = with_missing name rest
  at_target name (unreadable e) rest =
      stopped_at (codes "fetching target SecurityPolicy " ++ quote name ++ codes ": " ++ e)

  -- The loop over the target policies.
  pub read_targets : Text → List Text → Targets
  read_targets namespace [] = all_read []
  read_targets namespace (name ∷ names) =
      at_target name (api.get_policy namespace name) (read_targets namespace names)

  abbrev pub reconciling : RemediationPolicy → RemediationPolicy
  reconciling p = record p {
    status = record p.status {
      conditions =
          set clock.started_at (codes "Ready") condition_unknown (codes "Progressing")
            (codes "Reconciliation in progress") p.generation p.status.conditions;
    };
  }

  abbrev pub with_connected : ConditionStatus → Text → Text → RemediationPolicy → RemediationPolicy
  with_connected status reason message p = record p {
    status = record p.status {
      conditions =
          set clock.connected_at (codes "GitOpsConnected") status reason message p.generation
            p.status.conditions;
    };
  }

  abbrev pub connected : GitOpsRepository → RemediationPolicy → RemediationPolicy
  connected r p =
      with_connected condition_true (codes "ReconcileSuccess")
        (codes "GitOpsRepository "
          ++ quote r.name
          ++ codes " is available (phase: "
          ++ r.phase
          ++ codes ")")
        p

  -- The status of a policy whose repository or targets are missing.
  abbrev pub in_error : Text → Text → RemediationPolicy → RemediationPolicy
  in_error reason message p = record p {
    status = record p.status {
      phase = codes "Error";
      observed_generation = p.generation;
      conditions =
          set clock.checked_at (codes "Ready") condition_false reason message p.generation
            p.status.conditions;
    };
  }

  -- The status after a cycle that opened `created` pull requests where `already_open` were open.
  abbrev pub active : ℕ → ℕ → RemediationPolicy → RemediationPolicy
  active created already_open p =
      let applied = (p.status.remediations_applied + created) % 4294967296 in
      record p {
        status = record {
          phase = codes "Active";
          remediations_applied = applied;
          open_prs = (already_open + created) % 4294967296;
          last_run = some clock.run_at;
          observed_generation = p.generation;
          conditions =
              set clock.updated_at (codes "Ready") condition_true (codes "ReconcileSuccess")
                (codes "RemediationPolicy is active (PRs created this cycle: "
                  ++ decimal created
                  ++ codes ", total: "
                  ++ decimal applied
                  ++ codes ")")
                p.generation p.status.conditions;
        };
      }

  -- The call of Status().Update, and the time of the next run.
  abbrev pub store : Engines W → ℕ → Option Text × W → PolicyRun W
  store engines next (none, w) = record {
    world = w;
    engines = engines;
    outcome = requeue_after next;
  }
  store engines next (some e, w) = record {
    world = w;
    engines = engines;
    outcome = failed_with (codes "updating status: " ++ e);
  }

  abbrev pub ends_at : W → Engines W → Outcome → PolicyRun W
  ends_at w engines outcome = record { world = w; engines = engines; outcome = outcome }

  -- Step 4, after a cycle.
  abbrev pub conclude_run : RemediationPolicy → Engines W → ℕ → ℕ → W → PolicyRun W
  conclude_run p engines created already_open w =
      store engines next_cycle (api.update_status (active created already_open p) w)

  abbrev pub registered : GitOpsRepository → Engine W → Engine W
  registered r e =
      let (owner, repo) = parse_repo_url r.spec.url in
      ensure_gitops_engine (api.secret_engine r) owner repo e

  -- Step 3, with the engines that are not nil.
  abbrev pub run_cycle :
      RemediationPolicy → GitOpsRepository → Option Correlator → Option (Engine W) → W → PolicyRun W
  run_cycle p r (some c) (some e) w =
      let cycle =
        process_incidents unmarshal e clock.cycle_at p.spec r.spec (api.secret_engine r) c w in
      conclude_run p
        (record { correlator = some cycle.state.correlator; remediation = some (registered r e) })
        cycle.prs_created cycle.open_prs cycle.state.world
  run_cycle p r none e w = conclude_run p (record { correlator = none; remediation = e }) 0 0 w
  run_cycle p r (some c) none w =
      conclude_run p (record { correlator = some c; remediation = none }) 0 0 w

  -- From the check of the target policies on.
  abbrev pub with_targets :
      RemediationPolicy → GitOpsRepository → Engines W → Targets → W → PolicyRun W
  with_targets p r engines (stopped_at e) w = ends_at w engines (failed_with e)
  with_targets p r engines (all_read []) w = run_cycle p r engines.correlator engines.remediation w
  with_targets p r engines (all_read (name ∷ names)) w = store engines retry_after (
      api.update_status
        (in_error (codes "ReconcileFailed")
          (codes "target SecurityPolicies not found: " ++ join_by (codes ", ") (name ∷ names)) p)
        w)

  -- From the read of the repository on.
  abbrev pub with_repository :
      RemediationPolicy → Engines W → Got GitOpsRepository → W → PolicyRun W
  with_repository p engines absent w = store engines retry_after (
      api.update_status
        (in_error (codes "TargetNotFound") (codes "Referenced GitOpsRepository not found") (
          with_connected condition_false (codes "TargetNotFound")
            (repository_not_found p.gitops_repository) p))
        w)
  with_repository p engines (unreadable e) w =
      ends_at w engines (failed_with (codes "fetching GitOpsRepository: " ++ e))
  with_repository p engines (present r) w =
      with_targets (connected r p) r engines (read_targets p.spec.namespace p.spec.target_policies)
        w

  -- Reconcile
  unfoldable pub reconcile : Got RemediationPolicy → Engines W → W → PolicyRun W
  unfolding read_targets
  reconcile absent engines w = ends_at w engines (requeue_after 0)
  reconcile (unreadable e) engines w =
      ends_at w engines (failed_with (codes "fetching RemediationPolicy: " ++ e))
  reconcile (present p) engines w =
      with_repository (reconciling p) engines
        (api.get_repository p.spec.namespace p.gitops_repository) w
