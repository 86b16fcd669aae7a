-- ===== src/RemediationPolicy/Cycle/Induction.antt =====
-- A property of the counters and the state that each way of remediateIncident keeps holds when the
-- cycle ends.
use aotanami.RemediationPolicy.Cycle.Ways.{remediate_incident-Way, Way}
use aotanami.RemediationPolicy.{in_scope, max_prs, Policy}
use aotanami.Remediation.Fixes.{LlmResponse}
use aotanami.Prelude.{
  arith, refl, inr, not, [], ◌||◌, inl, ◌<◌, ◌∷◌, leb, true, ◌-◌, ◌≡◌, Bool-cases, All, List,
  Option, Text, ℕ,
}
use aotanami.Remediation.Apply.{Engine}
use aotanami.RemediationPolicy.Cycle.{
  remediate_incident, tallied, cycle_of, visit, snapshot_open_prs, Cycle, visit_each, Outcome,
  process_open, Tally, process_incidents_of, Policy, LlmResponse,
}
use aotanami.Correlator.{get_open_incidents, Incident, Engine as Correlator}

module _ {W : Type 0} (unmarshal : Text → Option LlmResponse) (engine : Engine W) (now : ℕ)
    (policy : Policy) (paths : List Text) (owner repo : Text) where
  -- The loop begins here.
  abbrev pub before : Correlator → ℕ × List (Text × Text) × W → Tally W
  before correlator snapshot = record {
    processed = 0;
    prs_created = 0;
    state = record { correlator = correlator; world = snapshot.2; branches = snapshot.1 };
  }

  module _ (budget : ℕ) (R : Incident → Type 0) (Q : Tally W → Type 0) where
    -- Each way keeps `Q`, at an incident that is in scope and has `R`, within the budget.
    abbrev pub Kept : Type 0
    Kept =
        (i : Incident) (t : Tally W) (o : Outcome W)
        → R i
        → in_scope policy i ≡ true
        → t.processed < budget
        → Way unmarshal engine now policy paths owner repo i t.state o
        → Q t
        → Q (tallied unmarshal engine now policy paths owner repo t o)

    visit_keeps :
        Kept
        → (i : Incident) (t : Tally W) → R i
        → Q t
        → Q (visit unmarshal engine now policy paths owner repo budget i t)
    unfolding visit
    visit_keeps kept i t r h =
        elim (Bool-cases (leb budget t.processed || not (in_scope policy i))) [
          | inl e ↦ rw e h
          | inr e ↦ rw e (
              kept i t (remediate_incident unmarshal engine now policy paths owner repo i t.state) r
                (ground (arith, e)) (ground (arith, e))
                (remediate_incident-Way unmarshal engine now policy paths owner repo i t.state) h)
        ]

    pub visit_each_keeps :
        Kept
        → (is : List Incident) → All R is
        → (t : Tally W) → Q t
        → Q (visit_each unmarshal engine now policy paths owner repo budget is t)
    unfolding visit_each
    visit_each_keeps kept [] rs t h = h
    visit_each_keeps kept (i ∷ is) (r, rs) t h =
        visit_each_keeps kept is rs (visit unmarshal engine now policy paths owner repo budget i t)
          (visit_keeps kept i t r h)

  -- The cycle ended with a tally that has `Q`.
  pub record Ended (Q : Tally W → Type 0) (n : ℕ) (c : Cycle W) : Type 0 where
    pub tally : Tally W
    pub ends : c ≡ cycle_of unmarshal engine now policy paths owner repo n tally
    pub has : Q tally

  process_open-Ended :
      (R : Incident → Type 0) (Q : Tally W → Type 0) (is : List Incident) (correlator : Correlator)
      (snapshot : ℕ × List (Text × Text) × W)
      → Kept (max_prs policy - snapshot.0) R Q
      → All R is
      → Q (before correlator snapshot)
      → Ended Q snapshot.0
          (process_open unmarshal engine now policy paths owner repo is correlator snapshot)
  unfolding process_open
  process_open-Ended R Q [] correlator (n, old, w) kept rs h = record {
    tally = before correlator (n, old, w);
    ends = refl;
    has = h;
  }
  process_open-Ended R Q (i ∷ is) correlator (n, old, w) kept rs h =
      let start = before correlator (n, old, w) in
      elim (Bool-cases (leb (max_prs policy) n)) [
        | inl e ↦ rw e (record { tally = start; ends = refl; has = h })
        | inr e ↦ rw e (record {
          tally =
              visit_each unmarshal engine now policy paths owner repo (max_prs policy - n) (i ∷ is)
                start;
          ends = refl;
          has = visit_each_keeps (max_prs policy - n) R Q kept (i ∷ is) rs start h;
        })
      ]

  pub process_incidents-Ended :
      (R : Incident → Type 0) (Q : Tally W → Type 0) (correlator : Correlator) (w : W)
      → let snapshot = snapshot_open_prs engine owner repo w in
        Kept (max_prs policy - snapshot.0) R Q
        → All R (get_open_incidents correlator)
        → Q (before correlator snapshot)
        → Ended Q snapshot.0
            (process_incidents_of unmarshal engine now policy paths owner repo correlator w)
  unfolding process_incidents_of
  process_incidents-Ended R Q correlator w =
      process_open-Ended R Q (get_open_incidents correlator) correlator
        (snapshot_open_prs engine owner repo w)
