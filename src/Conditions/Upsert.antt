-- ===== src/Conditions/Upsert.antt =====
-- What Get finds after Set and Remove.
use aotanami.Conditions.{
  condition_true, condition_false, condition_unknown, same_status, updated, appended, Condition,
  get, set, ConditionStatus,
}
use aotanami.Prelude.{
  ◌↔◌, arith, true, ◌≢◌, ◌⊎◌, ◌∙◌, subst, ap, text_eq_iff, if◌then◌else◌, refl, [], inr, inl,
  Bool-cases, ◌∷◌, none, false, text_eq_refl, text_eq, ◌≡◌, some, List, Option, Text, ℕ,
}

module _ (now : ℕ) (type : Text) (status : ConditionStatus) (reason message : Text)
    (generation : ℕ) where
  -- What Set makes of the condition of its type: a new one if there was none.
  abbrev pub upserted : Option Condition → Condition
  upserted none = appended now type status reason message generation
  upserted (some c) = updated now type status reason message generation c

  get-set_same :
      (cs : List Condition)
      → get (set now type status reason message generation cs) type ≡ some (upserted (get cs type))
  unfolding set get
  get-set_same [] = rw (text_eq_refl type) refl
  get-set_same (c ∷ cs) = elim (Bool-cases (text_eq c.type type)) [
    | inl e ↦ rw (e, e) refl
    | inr e ↦ rw (e, e) (get-set_same cs)
  ]

  get-set_other :
      (cs : List Condition) (t : Text)
      → text_eq type t ≡ false
      → get (set now type status reason message generation cs) t ≡ get cs t
  unfolding set get
  get-set_other [] t ne = rw ne refl
  get-set_other (c ∷ cs) t ne = elim (Bool-cases (text_eq c.type type)) [
    | inl e ↦
        let same : c.type ≡ type = (text_eq_iff c.type type).0 e in
        let apart : text_eq c.type t ≡ false = ap (λ x. text_eq x t) same ∙ ne in
        rw e (rw apart refl)
    | inr e ↦ rw e (elim (Bool-cases (text_eq c.type t)) [
      | inl h ↦ rw h refl
      | inr h ↦ rw h (get-set_other cs t ne)
    ])
  ]

  pub get-set :
      (cs : List Condition) (t : Text)
      → get (set now type status reason message generation cs) t
        ≡ (if text_eq type t then some (upserted (get cs t)) else get cs t)
  get-set cs t = elim (Bool-cases (text_eq type t)) [
    | inl e ↦ rw e (
        subst
          (λ x.
            get (set now type status reason message generation cs) x ≡ some (upserted (get cs x)))
          ((text_eq_iff type t).0 e) (get-set_same cs))
    | inr e ↦ rw e (get-set_other cs t e)
  ]

same_status_iff : (a b : ConditionStatus) → (same_status a b ≡ true) ↔ (a ≡ b)
unfolding same_status
same_status_iff condition_true condition_true = ((λ _. refl), λ _. refl)
same_status_iff condition_true condition_false = (ground arith, ground arith)
same_status_iff condition_true condition_unknown = (ground arith, ground arith)
same_status_iff condition_false condition_true = (ground arith, ground arith)
same_status_iff condition_false condition_false = ((λ _. refl), λ _. refl)
same_status_iff condition_false condition_unknown = (ground arith, ground arith)
same_status_iff condition_unknown condition_true = (ground arith, ground arith)
same_status_iff condition_unknown condition_false = (ground arith, ground arith)
same_status_iff condition_unknown condition_unknown = ((λ _. refl), λ _. refl)

-- The condition that is found after Set, by the one that was found before.
pub data IsWritten (now : ℕ) (type : Text) (status : ConditionStatus) (reason message : Text)
    (generation : ℕ) (before : Option Condition) (c : Condition) : Type 0 where
  is_new :
      before ≡ none
      → c ≡ (record {
        type = type;
        status = status;
        observed_generation = generation;
        last_transition_time = now;
        reason = reason;
        message = message;
      })
      → IsWritten now type status reason message generation before c
  keeps_status :
      (old : Condition)
      → before ≡ some old
      → old.status ≡ status
      → c ≡ (record {
        type = old.type;
        status = status;
        observed_generation = generation;
        last_transition_time = old.last_transition_time;
        reason = reason;
        message = message;
      })
      → IsWritten now type status reason message generation before c
  changes_status :
      (old : Condition)
      → before ≡ some old
      → old.status ≢ status
      → c ≡ (record {
        type = old.type;
        status = status;
        observed_generation = generation;
        last_transition_time = now;
        reason = reason;
        message = message;
      })
      → IsWritten now type status reason message generation before c

upserted-IsWritten :
    (now : ℕ) (type : Text) (status : ConditionStatus) (reason message : Text) (generation : ℕ)
    (o : Option Condition)
    → IsWritten now type status reason message generation o
        (upserted now type status reason message generation o)
upserted-IsWritten now type status reason message generation none = is_new refl refl
upserted-IsWritten now type status reason message generation (some c) =
    elim (Bool-cases (same_status c.status status)) [
      | inl e ↦ rw e (keeps_status c refl ((same_status_iff c.status status).0 e) refl)
      | inr e ↦ rw e (
          changes_status c refl (λ k. ground (arith, e, (same_status_iff c.status status).1 k))
            refl)
    ]

-- After Set, Get finds under its type a condition with the new status, reason, message and
-- generation, which keeps the transition time of the old one exactly if there was one with the same
-- status; under every other type it finds what it did.
pub set_lem :
    (now : ℕ) (type : Text) (status : ConditionStatus) (reason message : Text) (generation : ℕ)
    (cs : List Condition) (t : Text)
    → let before = get cs t in
      let after = get (set now type status reason message generation cs) t in
      ((type ≡ t)
        × ((c : Condition) × (after ≡ some c)
            × IsWritten now type status reason message generation before c))
      ⊎ ((type ≢ t) × (after ≡ before))
set_lem now type status reason message generation cs t = elim (Bool-cases (text_eq type t)) [
  | inl e ↦ inl (
    (text_eq_iff type t).0 e,
    (
      upserted now type status reason message generation (get cs t),
      rw e at (get-set now type status reason message generation cs t),
      upserted-IsWritten now type status reason message generation (get cs t),
    ),
  )
  | inr e ↦ inr (
    (λ k. ground (arith, e, (text_eq_iff type t).1 k)),
    rw e at (get-set now type status reason message generation cs t),
  )
]
