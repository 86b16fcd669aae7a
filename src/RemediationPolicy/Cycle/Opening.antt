-- ===== src/RemediationPolicy/Cycle/Opening.antt =====
-- When remediateIncident opens a pull request.
use aotanami.RemediationPolicy.Cycle.Ways.{
  is_severe, proposed, reported, refused, previewed, without_plan, duplicate_in_preview, duplicate,
  remediate_incident-Way, filtered, Way, Submitted,
}
use aotanami.Remediation.Fixes.{LlmResponse}
use aotanami.Prelude.{none, false, ltb, refl, arith, some, ◌↔◌, true, ◌≡◌, List, Option, Text, ℕ}
use aotanami.Remediation.Apply.{applied, PullRequestResult, Engine}
use aotanami.RemediationPolicy.Cycle.{
  at_severity, after_apply, after_plan, remediate_finding, Outcome, remediate_incident, LlmResponse,
  State,
}
use aotanami.Correlator.{Incident}
use aotanami.RemediationPolicy.{min_severity, incident_to_finding, Policy, severity_order}

module _ {W : Type 0} (unmarshal : Text → Option LlmResponse) (engine : Engine W) (now : ℕ)
    (policy : Policy) (paths : List Text) (owner repo : Text) (i : Incident) (s : State W) where
  -- A pull request results: the incident passes the severity filter, its branch has no open one, the
  -- LLM's answer gives a plan, the policy is no preview, and submitting the plan returns the pull request.
  pub record Opens : Type 0 where
    pub result : PullRequestResult
    pub world : W
    pub submitted :
        Submitted unmarshal engine now policy paths owner repo i s (applied (some result)) world

  opened-Opens :
      {o : Outcome W}
      → Way unmarshal engine now policy paths owner repo i s o
      → o.opened ≡ true
      → Opens
  opened-Opens (filtered _) e = absurd (ground (arith, e))
  opened-Opens (duplicate _ _ _) e = absurd (ground (arith, e))
  opened-Opens (duplicate_in_preview _ _ _) e = absurd (ground (arith, e))
  opened-Opens (without_plan _ _) e = absurd (ground (arith, e))
  opened-Opens (previewed _ _ _ _) e = absurd (ground (arith, e))
  opened-Opens (refused _ _) e = absurd (ground (arith, e))
  opened-Opens (reported _ _) e = absurd (ground (arith, e))
  opened-Opens (proposed r w sub) e = record { result = r; world = w; submitted = sub }

  at_severity-severe :
      (o : Option ℕ)
      → is_severe policy o ≡ true
      → at_severity unmarshal engine now policy paths owner repo i s o
        ≡ remediate_finding unmarshal engine now policy paths owner repo i (incident_to_finding i) s
  at_severity-severe none e = absurd (ground (arith, e))
  at_severity-severe (some sev) e =
      let near : ltb (min_severity policy) sev ≡ false = ground (arith, e) in rw near refl

  Opens-opened :
      Opens → (remediate_incident unmarshal engine now policy paths owner repo i s).opened ≡ true
  unfolding remediate_incident remediate_finding after_plan after_apply
  Opens-opened h =
      let sub = h.submitted in
      rw (at_severity-severe (severity_order i.severity) sub.planned.severe)
        (rw (sub.planned.fresh, sub.planned.answered, sub.wet, sub.answered) refl)

  -- remediateIncident counts a pull request as opened exactly when one results.
  pub opened_iff :
      ((remediate_incident unmarshal engine now policy paths owner repo i s).opened ≡ true) ↔ Opens
  opened_iff = (
    opened-Opens (remediate_incident-Way unmarshal engine now policy paths owner repo i s),
    Opens-opened,
  )
