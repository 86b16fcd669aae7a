-- ===== src/RemediationPolicy/Cycle/Bounds.antt =====
-- How many pull requests a cycle opens, and where.
use aotanami.RemediationPolicy.Cycle.Ways.{
  branch_of, proposed, reported, refused, previewed, without_plan, duplicate_in_preview, duplicate,
  filtered, Way,
}
use aotanami.Correlator.{get_open_incidents, Incident}
use aotanami.RemediationPolicy.{max_prs, Incident, Policy}
use aotanami.Remediation.Fixes.{LlmResponse}
use aotanami.RemediationPolicy.Cycle.{
  snapshot_open_prs, count, State, Correlator, process_incidents_of, mark_resolved, tallied,
  Outcome, Tally, Policy, LlmResponse, has_branch,
}
use aotanami.RemediationPolicy.Cycle.Induction.{Ended, process_incidents-Ended}
use aotanami.Prelude.{
  everywhere, ◌-◌, sym, true, refl, Bool, [], ◌<◌, subst, ◌≤◌, arith, ap, ◌+◌, length, ◌++◌, false,
  ◌∷◌, Option, ◌≡◌, List, Text, ℕ,
}
use aotanami.Remediation.Apply.{Engine}

-- `all` is `old` with `n` entries before it, of branches that are new when they are added.
abbrev AllNew : List (Text × Text) → List (Text × Text) → Type 0
AllNew [] old = Unit
AllNew (b ∷ bs) old = (has_branch b.0 (bs ++ old) ≡ false) × AllNew bs old

pub record Additions (old : List (Text × Text)) (n : ℕ) (whole : List (Text × Text)) : Type 0 where
  pub added : List (Text × Text)
  pub before_old : whole ≡ added ++ old
  pub counted : length added ≡ n
  pub each_new : AllNew added old

add_one :
    (b : Text × Text) (old : List (Text × Text)) (n : ℕ) (whole : List (Text × Text))
    → has_branch b.0 whole ≡ false
    → Additions old n whole
    → Additions old (n + 1) (b ∷ whole)
add_one b old n whole fresh h = record {
  added = b ∷ h.added;
  before_old = ap (λ bs. b ∷ bs) h.before_old;
  counted = omega (arith, h.counted);
  each_new = (subst (λ bs. has_branch b.0 bs ≡ false) h.before_old fresh, h.each_new);
}

module _ {W : Type 0} (unmarshal : Text → Option LlmResponse) (engine : Engine W) (now : ℕ)
    (policy : Policy) (paths : List Text) (owner repo : Text) where
  -- The counters are in order, and the branches of the counted pull requests are new.
  record InOrder (budget : ℕ) (old : List (Text × Text)) (t : Tally W) : Type 0 where
    opened_few : t.prs_created ≤ t.processed
    within : t.processed ≤ budget
    additions : Additions old t.prs_created t.state.branches

  count-le : (c : Bool) → count c ≤ 1
  count-le true = omega arith
  count-le false = omega arith

  -- Without a pull request.
  unopened :
      (budget : ℕ) (old : List (Text × Text)) (t : Tally W) (c : Bool) (s : State W)
      → s.branches ≡ t.state.branches
      → t.processed < budget
      → InOrder budget old t
      → InOrder budget old (
          tallied unmarshal engine now policy paths owner repo t
            (record { opened = false; charged = c; state = s }))
  unopened budget old t c s same lt h = record {
    opened_few = omega (arith, h.opened_few);
    within = omega (arith, lt, count-le c);
    additions =
        subst (Additions old (t.prs_created + 0)) (sym same)
          (subst (λ n. Additions old n t.state.branches) (omega arith) h.additions);
  }

  tallied-InOrder :
      (budget : ℕ) (old : List (Text × Text)) (i : Incident) (t : Tally W) {o : Outcome W}
      → Way unmarshal engine now policy paths owner repo i t.state o
      → t.processed < budget
      → InOrder budget old t
      → InOrder budget old (tallied unmarshal engine now policy paths owner repo t o)
  tallied-InOrder budget old i t (filtered _) = unopened budget old t false t.state refl
  tallied-InOrder budget old i t (duplicate _ _ _) =
      unopened budget old t false (mark_resolved now i t.state) refl
  tallied-InOrder budget old i t (duplicate_in_preview _ _ _) =
      unopened budget old t false t.state refl
  tallied-InOrder budget old i t (without_plan w _) =
      unopened budget old t true (record t.state { world = w }) refl
  tallied-InOrder budget old i t (previewed _ w _ _) =
      unopened budget old t true (record t.state { world = w }) refl
  tallied-InOrder budget old i t (refused w _) =
      unopened budget old t true (record t.state { world = w }) refl
  tallied-InOrder budget old i t (reported w _) =
      unopened budget old t true (mark_resolved now i (record t.state { world = w })) refl
  tallied-InOrder budget old i t (proposed r w sub) = λ lt h. record {
    opened_few = omega (arith, h.opened_few);
    within = omega (arith, lt);
    additions =
        add_one (branch_of i, r.url) old t.prs_created t.state.branches sub.planned.fresh
          h.additions;
  }

  -- The tally at the end is in order.
  cycle-Ended :
      (correlator : Correlator) (w : W)
      → let (n, old, w') = snapshot_open_prs engine owner repo w in
        Ended unmarshal engine now policy paths owner repo
          (InOrder (max_prs policy - n) old)
          n
          (process_incidents_of unmarshal engine now policy paths owner repo correlator w)
  cycle-Ended correlator w =
      let (n, old, w') = snapshot_open_prs engine owner repo w in
      process_incidents-Ended unmarshal engine now policy paths owner repo (λ i. Unit)
        (InOrder (max_prs policy - n) old) correlator w
        (λ i t o _ _ lt way. tallied-InOrder (max_prs policy - n) old i t way lt)
        (everywhere (λ i. tt) (get_open_incidents correlator))
        (record {
          opened_few = omega arith;
          within = omega arith;
          additions = record { added = []; before_old = refl; counted = refl; each_new = tt };
        })

  pub process_incidents-open_prs :
      (correlator : Correlator) (w : W)
      → (process_incidents_of unmarshal engine now policy paths owner repo correlator w).open_prs
        ≡ (snapshot_open_prs engine owner repo w).0
  process_incidents-open_prs correlator w = ap (λ c. c.open_prs) (cycle-Ended correlator w).ends

  -- A cycle opens as many pull requests as it counts, each on a branch that is not among those that
  -- were listed at its start, nor opened before.
  pub process_incidents-Additions :
      (correlator : Correlator) (w : W)
      → let c = process_incidents_of unmarshal engine now policy paths owner repo correlator w in
        Additions (snapshot_open_prs engine owner repo w).1 c.prs_created c.state.branches
  process_incidents-Additions correlator w =
      let h = cycle-Ended correlator w in rw h.ends h.has.additions
