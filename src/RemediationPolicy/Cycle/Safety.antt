-- ===== src/RemediationPolicy/Cycle/Safety.antt =====
-- What a cycle asks of the world outside.
use aotanami.Remediation.Fixes.Vetted.{IsSafePlan}
use aotanami.RemediationPolicy.Cycle.Ways.{
  proposed, reported, refused, previewed, without_plan, duplicate_in_preview, duplicate, filtered,
  Way, Planned, Submitted,
}
use aotanami.Remediation.Model.{Plan}
use aotanami.Remediation.Apply.Requests.{
  apply_plan-Keeps, generate_plan-PlanSafe, PlanSafe, generate_plan-Keeps, LlmKeeps, GitOpsKeeps,
}
use aotanami.RemediationPolicy.{incident_to_finding, Policy}
use aotanami.Remediation.Fixes.{LlmResponse}
use aotanami.RemediationPolicy.Cycle.Induction.{process_incidents-Ended}
use aotanami.Prelude.{
  everywhere, arith, subst, inl, ◌⊎◌, ◌||◌, inr, [], true, text_eq, ◌≡◌, none, some, Bool-cases,
  List, Text, Option, ℕ,
}
use aotanami.Remediation.Apply.{Applied, PullRequestResult, get_gitops_engine, GitOps, Engine}
use aotanami.RemediationPolicy.Cycle.{
  Outcome, Plan, process_incidents_of, snapshot_of, Policy, list_with, LlmResponse,
  snapshot_open_prs, State,
}
use aotanami.Correlator.{get_open_incidents, Incident, Engine as Correlator}

module _ {W : Type 0} (P : W → Type 0) where
  -- Listing the open pull requests keeps `P`.
  abbrev pub ListKeeps : Text → Text → Option (GitOps W) → Type 0
  ListKeeps owner repo none = Unit
  ListKeeps owner repo (some g) = (w : W) → P w → P (g.list_open_prs owner repo w).1

  GitOpsKeeps-ListKeeps :
      (owner repo : Text) (o : Option (GitOps W))
      → GitOpsKeeps P owner repo o
      → ListKeeps owner repo o
  GitOpsKeeps-ListKeeps owner repo none h = tt
  GitOpsKeeps-ListKeeps owner repo (some g) h = h.1

  snapshot_of-Keeps : (r : Option (List PullRequestResult) × W) → P r.1 → P (snapshot_of r).2
  snapshot_of-Keeps (none, w) h = h
  snapshot_of-Keeps (some prs, w) h = h

  list_with-Keeps :
      (owner repo : Text) (w : W) (o : Option (GitOps W))
      → ListKeeps owner repo o
      → P w
      → P (list_with owner repo w o).2
  list_with-Keeps owner repo w none keeps h = h
  list_with-Keeps owner repo w (some g) keeps h =
      snapshot_of-Keeps (g.list_open_prs owner repo w) (keeps w h)

  snapshot_open_prs-Keeps :
      (e : Engine W) (owner repo : Text) (w : W)
      → ListKeeps owner repo (get_gitops_engine e owner repo)
      → P w
      → P (snapshot_open_prs e owner repo w).2
  unfolding snapshot_open_prs
  snapshot_open_prs-Keeps e owner repo w keeps h =
      elim (Bool-cases (text_eq owner [] || text_eq repo [])) [
        | inl none_named ↦ rw none_named h
        | inr named ↦
            rw named (list_with-Keeps owner repo w (get_gitops_engine e owner repo) keeps h)
      ]

module _ {W : Type 0} (P : W → Type 0) (unmarshal : Text → Option LlmResponse) (engine : Engine W)
    (now : ℕ) (policy : Policy) (paths : List Text) (owner repo : Text) where
  -- What a preview may do, or else what any cycle may.
  abbrev Allowed : Type 0
  Allowed = (policy.dry_run ≡ true) ⊎ GitOpsKeeps P owner repo (get_gitops_engine engine owner repo)

  module _ (llm : LlmKeeps P engine.llm_client) (allowed : Allowed) where
    planned-Keeps :
        (i : Incident) (s : State W) {o : Option Plan} {w : W}
        → P s.world
        → Planned unmarshal engine now policy paths owner repo i s o w
        → P w
    planned-Keeps i s h p =
        subst (λ r. P r.1) p.answered
          (generate_plan-Keeps P unmarshal now (incident_to_finding i) paths engine s.world llm h)

    submitted-Keeps :
        (i : Incident) (s : State W) {a : Applied} {w : W}
        → P s.world
        → Submitted unmarshal engine now policy paths owner repo i s a w
        → P w
    submitted-Keeps i s h p =
        let f = incident_to_finding i in
        let safe : IsSafePlan f p.plan =
          subst (λ r. PlanSafe f r.0) p.planned.answered
            (generate_plan-PlanSafe unmarshal now f paths engine s.world) in
        subst (λ r. P r.1) p.answered
          (elim allowed [
            | inl dry ↦ absurd (ground (arith, dry, p.wet))
            | inr keeps ↦
                apply_plan-Keeps P engine f p.plan owner repo p.world keeps safe
                  (planned-Keeps i s h p.planned)
          ])

    Way-Keeps :
        (i : Incident) (s : State W) {o : Outcome W}
        → P s.world
        → Way unmarshal engine now policy paths owner repo i s o
        → P o.state.world
    Way-Keeps i s h (filtered _) = h
    Way-Keeps i s h (duplicate _ _ _) = h
    Way-Keeps i s h (duplicate_in_preview _ _ _) = h
    Way-Keeps i s h (without_plan w p) = planned-Keeps i s h p
    Way-Keeps i s h (previewed plan w p _) = planned-Keeps i s h p
    Way-Keeps i s h (refused w p) = submitted-Keeps i s h p
    Way-Keeps i s h (reported w p) = submitted-Keeps i s h p
    Way-Keeps i s h (proposed r w p) = submitted-Keeps i s h p

    cycle-Keeps :
        (correlator : Correlator) (w : W)
        → P (snapshot_open_prs engine owner repo w).2
        → let c = process_incidents_of unmarshal engine now policy paths owner repo correlator w in
          P c.state.world
    cycle-Keeps correlator w h =
        let end =
          process_incidents-Ended unmarshal engine now policy paths owner repo (λ i. Unit)
            (λ t. P t.state.world) correlator w (λ i t o _ _ _ way k. Way-Keeps i t.state k way)
            (everywhere (λ i. tt) (get_open_incidents correlator)) h in
        rw end.ends end.has

  -- The only pull requests that a cycle submits are to the repository, and safe: what the LLM client
  -- and the list of pull requests keep, and every safe submission, the whole cycle keeps.
  pub process_incidents_is_safe :
      (correlator : Correlator) (w : W)
      → LlmKeeps P engine.llm_client
      → GitOpsKeeps P owner repo (get_gitops_engine engine owner repo)
      → P w
      → let c = process_incidents_of unmarshal engine now policy paths owner repo correlator w in
        P c.state.world
  process_incidents_is_safe correlator w llm keeps h = cycle-Keeps llm (inr keeps) correlator w (
      snapshot_open_prs-Keeps P engine owner repo w
        (GitOpsKeeps-ListKeeps P owner repo (get_gitops_engine engine owner repo) keeps) h)

  -- A preview submits nothing: with dryRun set, a cycle keeps what the LLM client and the list of
  -- pull requests keep, whatever a submission would do.
  pub preview_submits_nothing :
      (correlator : Correlator) (w : W)
      → LlmKeeps P engine.llm_client
      → ListKeeps P owner repo (get_gitops_engine engine owner repo)
      → policy.dry_run ≡ true
      → P w
      → let c = process_incidents_of unmarshal engine now policy paths owner repo correlator w in
        P c.state.world
  preview_submits_nothing correlator w llm keeps dry h =
      cycle-Keeps llm (inl dry) correlator w (snapshot_open_prs-Keeps P engine owner repo w keeps h)
