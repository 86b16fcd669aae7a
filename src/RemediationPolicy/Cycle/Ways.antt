-- ===== src/RemediationPolicy/Cycle/Ways.antt =====
-- The ways that remediateIncident can go, each with what it requires and the outcome it has.
use aotanami.Remediation.Model.{Plan}
use aotanami.Remediation.Apply.{
  Engine, PullRequestResult, failed, applied, apply_plan, generate_plan, Applied,
}
use aotanami.RemediationPolicy.Cycle.{
  mark_resolved, skip_duplicate, has_branch, at_severity, Plan, Outcome, after_plan, after_apply,
  remediate_incident, remediate_finding, Applied, State,
}
use aotanami.Remediation.Branch.{branch_name}
use aotanami.Remediation.Fixes.{LlmResponse}
use aotanami.Correlator.{Incident}
use aotanami.RemediationPolicy.{min_severity, Policy, incident_to_finding, severity_order}
use aotanami.Prelude.{
  refl, ◌∷◌, arith, inr, ltb, inl, none, Bool-cases, true, ◌≡◌, leb, List, some, false, Option,
  Bool, Text, ℕ,
}

-- The branch on which the pull request of an incident lands.
abbrev pub branch_of : Incident → Text
branch_of i =
    let f = incident_to_finding i in branch_name f.resource_name f.resource_namespace f.title

-- The severity of the incident is known and at least the policy's threshold.
abbrev pub is_severe : Policy → Option ℕ → Bool
is_severe policy none = false
is_severe policy (some sev) = leb sev (min_severity policy)

abbrev pub passes_filter : Policy → Incident → Bool
passes_filter policy i = is_severe policy (severity_order i.severity)

module _ {W : Type 0} (unmarshal : Text → Option LlmResponse) (engine : Engine W) (now : ℕ)
    (policy : Policy) (paths : List Text) (owner repo : Text) where
  module _ (i : Incident) (s : State W) where
    abbrev pub asked : Option Plan × W
    asked = generate_plan unmarshal engine now (incident_to_finding i) paths s.world

    -- A plan was asked for.
    pub record Planned (o : Option Plan) (w : W) : Type 0 where
      pub severe : passes_filter policy i ≡ true
      pub fresh : has_branch (branch_of i) s.branches ≡ false
      pub answered : asked ≡ (o, w)

    -- The plan was submitted.
    pub record Submitted (a : Applied) (w : W) : Type 0 where
      pub plan : Plan
      pub world : W
      pub planned : Planned (some plan) world
      pub wet : policy.dry_run ≡ false
      pub answered : apply_plan engine plan owner repo world ≡ (a, w)

    pub data Way : Outcome W → Type 0 where
      filtered :
          passes_filter policy i ≡ false
          → Way (record { opened = false; charged = false; state = s })
      duplicate :
          passes_filter policy i ≡ true
          → has_branch (branch_of i) s.branches ≡ true
          → policy.dry_run ≡ false
          → Way (record { opened = false; charged = false; state = mark_resolved now i s })
      duplicate_in_preview :
          passes_filter policy i ≡ true
          → has_branch (branch_of i) s.branches ≡ true
          → policy.dry_run ≡ true
          → Way (record { opened = false; charged = false; state = s })
      without_plan :
          (w : W)
          → Planned none w
          → Way (record { opened = false; charged = true; state = record s { world = w } })
      previewed :
          (plan : Plan) (w : W)
          → Planned (some plan) w
          → policy.dry_run ≡ true
          → Way (record { opened = false; charged = true; state = record s { world = w } })
      refused :
          (w : W)
          → Submitted failed w
          → Way (record { opened = false; charged = true; state = record s { world = w } })
      reported :
          (w : W)
          → Submitted (applied none) w
          → Way (record {
            opened = false;
            charged = true;
            state = mark_resolved now i (record s { world = w });
          })
      proposed :
          (r : PullRequestResult) (w : W)
          → Submitted (applied (some r)) w
          → Way (record {
            opened = true;
            charged = true;
            state =
                mark_resolved now i
                  (record s { world = w; branches = (branch_of i, r.url) ∷ s.branches });
          })

    after_apply-Way :
        (r : Applied × W) → Submitted r.0 r.1 → Way (after_apply now i (branch_of i) s r)
    unfolding after_apply
    after_apply-Way (failed, w) h = refused w h
    after_apply-Way (applied none, w) h = reported w h
    after_apply-Way (applied (some r), w) h = proposed r w h

    after_plan-Way :
        (r : Option Plan × W)
        → Planned r.0 r.1
        → Way (after_plan unmarshal engine now policy paths owner repo i (branch_of i) s r)
    unfolding after_plan
    after_plan-Way (none, w) h = without_plan w h
    after_plan-Way (some plan, w) h = elim (Bool-cases policy.dry_run) [
      | inl e ↦ simp e (previewed plan w h e)
      | inr e ↦ simp e (
          after_apply-Way (apply_plan engine plan owner repo w)
            (record { plan = plan; world = w; planned = h; wet = e; answered = refl }))
    ]

    skip_duplicate-Way :
        passes_filter policy i ≡ true
        → has_branch (branch_of i) s.branches ≡ true
        → Way (skip_duplicate unmarshal engine now policy paths owner repo i s)
    skip_duplicate-Way severe seen = elim (Bool-cases policy.dry_run) [
      | inl e ↦ simp e (duplicate_in_preview severe seen e)
      | inr e ↦ simp e (duplicate severe seen e)
    ]

    remediate_finding-Way :
        passes_filter policy i ≡ true
        → Way (
            remediate_finding unmarshal engine now policy paths owner repo i
              (incident_to_finding i)
              s)
    unfolding remediate_finding
    remediate_finding-Way severe = elim (Bool-cases (has_branch (branch_of i) s.branches)) [
      | inl e ↦ rw e (skip_duplicate-Way severe e)
      | inr e ↦ rw e (after_plan-Way asked (record { severe = severe; fresh = e; answered = refl }))
    ]

    at_severity-Way :
        (o : Option ℕ)
        → passes_filter policy i ≡ is_severe policy o
        → Way (at_severity unmarshal engine now policy paths owner repo i s o)
    at_severity-Way none e = filtered e
    at_severity-Way (some sev) e = elim (Bool-cases (ltb (min_severity policy) sev)) [
      | inl far ↦ rw far (filtered (ground (arith, e, far)))
      | inr near ↦ rw near (remediate_finding-Way (ground (arith, e, near)))
    ]

    -- remediateIncident goes one of the ways.
    pub remediate_incident-Way :
        Way (remediate_incident unmarshal engine now policy paths owner repo i s)
    unfolding remediate_incident
    remediate_incident-Way = at_severity-Way (severity_order i.severity) refl
