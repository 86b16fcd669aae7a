-- ===== src/RemediationPolicy/Reconcile/Accounts.antt =====
-- What a run of the controller writes about the pull requests.
use aotanami.Prelude.{◌+◌, ◌%◌, ◌≤◌, ◌≡◌, ◌⊎◌, List, Option, ℕ, Text, codes}
use aotanami.Conditions.{condition_true}
use aotanami.Correlator.{Engine as Correlator}
use aotanami.Remediation.Apply.{Engine}
use aotanami.Remediation.Fixes.{LlmResponse}
use aotanami.RemediationPolicy.{parse_repo_url}
use aotanami.RemediationPolicy.Cycle.{process_incidents, snapshot_open_prs, Cycle}
use aotanami.RemediationPolicy.Cycle.Bounds.{Additions}
use aotanami.RemediationPolicy.Reconcile.{
  RemediationPolicy, RemediationPolicyStatus, GitOpsRepository, PolicyApi, PolicyClock, reconciling,
  connected, registered,
}
use aotanami.SecurityPolicy.Reconcile.Status.{Reads, ready}

-- The status counts the pull requests of a cycle: `listed` are those that were listed before it, `old`
-- their branches, and `whole` the branches after it.
pub record IsAccounted (limit listed : ℕ) (before after : RemediationPolicyStatus)
    (old whole : List (Text × Text)) : Type 0 where
  pub created : ℕ
  pub additions : Additions old created whole
  pub capped : (created ≡ 0) ⊎ (listed + created ≤ limit)
  pub applied : after.remediations_applied ≡ (before.remediations_applied + created) % 4294967296
  pub counted : after.open_prs ≡ (listed + created) % 4294967296
  pub is_active : after.phase ≡ codes "Active"
  pub is_ready : Reads after.conditions ready condition_true (codes "ReconcileSuccess")

module _ {W : Type 0} where
  -- The number of open pull requests is that of the branches.
  module _ (unmarshal : Text → Option LlmResponse) (api : PolicyApi W) (clock : PolicyClock)
      (p : RemediationPolicy) (r : GitOpsRepository) where
    abbrev ready_policy : RemediationPolicy
    ready_policy = connected unmarshal api clock r (reconciling unmarshal api clock p)

    module _ (e : Engine W) (c : Correlator) (w : W) where
      abbrev old_branches : List (Text × Text)
      old_branches =
          let (owner, repo) = parse_repo_url r.spec.url in
          (snapshot_open_prs (registered unmarshal api clock r e) owner repo w).1

      abbrev listed : ℕ
      listed =
          let (owner, repo) = parse_repo_url r.spec.url in
          (snapshot_open_prs (registered unmarshal api clock r e) owner repo w).0

      abbrev cycle : Cycle W
      cycle = process_incidents unmarshal e clock.cycle_at p.spec r.spec (api.secret_engine r) c w
