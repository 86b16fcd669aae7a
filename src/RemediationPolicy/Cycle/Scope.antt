-- ===== src/RemediationPolicy/Cycle/Scope.antt =====
-- Which incidents a cycle leaves alone.
use aotanami.Correlator.Identity.{incident_ids-Distinct, Distinct-same, resolve_incident-Elem}
use aotanami.RemediationPolicy.Cycle.Ways.{
  proposed, reported, refused, previewed, without_plan, duplicate_in_preview, duplicate, filtered,
  Way, passes_filter,
}
use aotanami.Remediation.Fixes.{LlmResponse}
use aotanami.RemediationPolicy.{in_scope, Policy}
use aotanami.Correlator.Unique.{System, start, Reach}
use aotanami.RemediationPolicy.Cycle.Induction.{process_incidents-Ended}
use aotanami.Prelude.{
  everywhere, refl, ◌∙◌, ap, inr, ◌==◌, arith, [], Bool-cases, inl, ◌∷◌, true, ◌⊎◌, All, false,
  Elem, ◌≢◌, ◌≡◌, List, ◌&&◌, Option, Bool, Text, ℕ,
}
use aotanami.Remediation.Apply.{Engine}
use aotanami.RemediationPolicy.Cycle.{
  tallied, Tally, mark_resolved, process_incidents_of, Outcome, LlmResponse, Policy, State,
}
use aotanami.Correlator.{get_open_incidents-All, get_open_incidents, Incident, Engine as Correlator}

-- The policy is responsible for the incident, and acts on it.
abbrev pub is_eligible : Policy → Incident → Bool
is_eligible policy i = in_scope policy i && passes_filter policy i

module _ {W : Type 0} (unmarshal : Text → Option LlmResponse) (engine : Engine W) (now : ℕ)
    (policy : Policy) (paths : List Text) (owner repo : Text) (i : Incident) where
  -- The correlator holds the incident as it is.
  abbrev Holds : State W → Type 0
  Holds s = Elem i s.correlator.incidents

  resolved-Holds :
      (j : Incident) (s : State W) → i.id ≢ j.id → Holds s → Holds (mark_resolved now j s)
  resolved-Holds j s ne h = resolve_incident-Elem now j.id i s.correlator ne h

  -- What does not pass the filter is not resolved.
  Way-Holds :
      (j : Incident) (s : State W) {o : Outcome W}
      → (passes_filter policy j ≡ false) ⊎ (i.id ≢ j.id)
      → Way unmarshal engine now policy paths owner repo j s o
      → Holds s
      → Holds o.state
  Way-Holds j s far (filtered _) h = h
  Way-Holds j s (inl e) (duplicate severe _ _) h = absurd (ground (arith, e, severe))
  Way-Holds j s (inr ne) (duplicate _ _ _) h = resolved-Holds j s ne h
  Way-Holds j s far (duplicate_in_preview _ _ _) h = h
  Way-Holds j s far (without_plan w _) h = h
  Way-Holds j s far (previewed plan w _ _) h = h
  Way-Holds j s far (refused w _) h = h
  Way-Holds j s (inl e) (reported w sub) h = absurd (ground (arith, e, sub.planned.severe))
  Way-Holds j s (inr ne) (reported w sub) h = resolved-Holds j (record s { world = w }) ne h
  Way-Holds j s (inl e) (proposed r w sub) h = absurd (ground (arith, e, sub.planned.severe))
  Way-Holds j s (inr ne) (proposed r w sub) h = resolved-Holds j (record s { world = w }) ne h

  -- `j` is another incident, or the policy does not act on it.
  abbrev Other : Incident → Type 0
  Other j = (is_eligible policy j ≡ false) ⊎ (i.id ≢ j.id)

  -- An incident in scope that is not eligible does not pass the filter.
  far :
      (j : Incident)
      → Other j
      → in_scope policy j ≡ true
      → (passes_filter policy j ≡ false) ⊎ (i.id ≢ j.id)
  far j (inl e) scope = inl (ground (arith, e, scope))
  far j (inr ne) scope = inr ne

  -- Of incidents with different ids, each is another one than `i` if `i` is not eligible.
  each-Other :
      (is : List Incident)
      → is_eligible policy i ≡ false
      → ((j : Incident) → Elem j is → j.id ≡ i.id → j ≡ i)
      → All Other is
  each-Other [] idle same = tt
  each-Other (j ∷ js) idle same = (
    elim (Bool-cases (j.id == i.id)) [
      | inl e ↦ inl (ap (is_eligible policy) (same j (inl refl) (ground (arith, e))) ∙ idle)
      | inr e ↦ inr (ground (arith, e))
    ],
    each-Other js idle (λ k m. same k (inr m)),
  )

  -- In every correlator that operations make of a new one: an incident that is outside of the
  -- policy's targets, or below its severity threshold, is left by the cycle as it is.
  pub incident_is_left_alone :
      (window : ℕ) {s : System} (w : W)
      → Reach (start window) s
      → Elem i s.engine.incidents
      → is_eligible policy i ≡ false
      → let c = process_incidents_of unmarshal engine now policy paths owner repo s.engine w in
        Elem i c.state.correlator.incidents
  incident_is_left_alone window {s} w r m idle =
      let e = s.engine in
      let others : All Other e.incidents =
        each-Other e.incidents idle
          (λ j k. Distinct-same i j e.incidents (incident_ids-Distinct window r) m k) in
      let h =
        process_incidents-Ended unmarshal engine now policy paths owner repo Other
          (λ t. Holds t.state) e w
          (λ j t o other scope _ way. Way-Holds j t.state (far j other scope) way)
          (get_open_incidents-All Other e others) m in
      rw h.ends h.has

module _ {W : Type 0} (unmarshal : Text → Option LlmResponse) (engine : Engine W) (now : ℕ)
    (policy : Policy) (paths : List Text) (owner repo : Text) where
  -- The correlator is `c`, and no pull request is counted.
  abbrev Untouched : Correlator → Tally W → Type 0
  Untouched c t = (t.state.correlator ≡ c) × (t.prs_created ≡ 0)

  Way-Untouched :
      (c : Correlator) (j : Incident) (t : Tally W) {o : Outcome W}
      → policy.dry_run ≡ true
      → Way unmarshal engine now policy paths owner repo j t.state o
      → Untouched c t
      → Untouched c (tallied unmarshal engine now policy paths owner repo t o)
  Way-Untouched c j t dry (filtered _) h = (h.0, omega (arith, h.1))
  Way-Untouched c j t dry (duplicate _ _ wet) h = absurd (ground (arith, dry, wet))
  Way-Untouched c j t dry (duplicate_in_preview _ _ _) h = (h.0, omega (arith, h.1))
  Way-Untouched c j t dry (without_plan _ _) h = (h.0, omega (arith, h.1))
  Way-Untouched c j t dry (previewed _ _ _ _) h = (h.0, omega (arith, h.1))
  Way-Untouched c j t dry (refused _ sub) h = absurd (ground (arith, dry, sub.wet))
  Way-Untouched c j t dry (reported _ sub) h = absurd (ground (arith, dry, sub.wet))
  Way-Untouched c j t dry (proposed _ _ sub) h = absurd (ground (arith, dry, sub.wet))

  -- A preview leaves the correlator as it is, so every incident stays open for a later cycle, and
  -- counts no pull request.
  pub preview_resolves_nothing :
      (correlator : Correlator) (w : W)
      → policy.dry_run ≡ true
      → let c = process_incidents_of unmarshal engine now policy paths owner repo correlator w in
        (c.state.correlator ≡ correlator) × (c.prs_created ≡ 0)
  preview_resolves_nothing correlator w dry =
      let h =
        process_incidents-Ended unmarshal engine now policy paths owner repo (λ j. Unit)
          (Untouched correlator) correlator w
          (λ j t o _ _ _ way. Way-Untouched correlator j t dry way)
          (everywhere (λ j. tt) (get_open_incidents correlator)) (refl, refl) in
      rw h.ends h.has
