-- ===== src/Events/Remediations/Index.antt =====
-- What the operations on an index leave in it.
use aotanami.Prelude.{
  refl, sym, subst, text_eq_refl, text_eq_iff, inr, inl, ◌∷◌, Bool-cases, arith, ◌||◌, ◌&&◌, not,
  ◌≡◌, any, Bool, [], if◌then◌else◌, List, Text, text_eq,
}
use aotanami.Events.Remediations.{
  remove_string, update_index, append_unique, RemediationItem, at_resources,
}
use aotanami.Events.Remediations.Lists.{
  remove_string-IsUnique, has-remove_string, IsUnique, has-append_unique, has,
}

-- A finding of the resource is among the items.
abbrev pub mentions : Text → List RemediationItem → Bool
mentions rk items = any (λ it. text_eq it.resource_key rk) items

-- The keys of an index, at one resource, after the item `r`.
step_append_same :
    (j v rk : Text) (index : Text → List Text)
    → has j
        ((if text_eq rk [] then index else update_index index rk (append_unique (index rk) v)) rk)
      ≡ ((not (text_eq rk []) && text_eq rk rk && text_eq j v) || has j (index rk))
step_append_same j v rk index = elim (Bool-cases (text_eq rk [])) [
  | inl e ↦ rw e refl
  | inr e ↦ rw (e, text_eq_refl rk) (has-append_unique j v (index rk))
]

step_append :
    (j v r rk : Text) (index : Text → List Text)
    → has j ((if text_eq r [] then index else update_index index r (append_unique (index r) v)) rk)
      ≡ ((not (text_eq rk []) && text_eq r rk && text_eq j v) || has j (index rk))
step_append j v r rk index = elim (Bool-cases (text_eq r rk)) [
  | inl same ↦
      let e : r ≡ rk = (text_eq_iff r rk).0 same in
      subst
        (λ x.
          has j
            ((if text_eq x [] then index else update_index index x (append_unique (index x) v)) rk)
          ≡ ((not (text_eq rk []) && text_eq x rk && text_eq j v) || has j (index rk)))
        (sym e) (step_append_same j v rk index)
  | inr apart ↦ rw apart (ground (arith, apart))
]

pub at_resources-append :
    (j v rk : Text) (items : List RemediationItem) (index : Text → List Text)
    → has j (at_resources (λ keys. append_unique keys v) items index rk)
      ≡ ((not (text_eq rk []) && mentions rk items && text_eq j v) || has j (index rk))
unfolding at_resources
at_resources-append j v rk [] index = ground arith
at_resources-append j v rk (it ∷ items) index =
    let index' =
      if text_eq it.resource_key []
      then index
      else update_index index it.resource_key (append_unique (index it.resource_key) v) in
    ground
      (arith, at_resources-append j v rk items index', step_append j v it.resource_key rk index)

step_remove_same :
    (j v rk : Text) (index : Text → List Text)
    → IsUnique (index rk)
    → has j
        ((if text_eq rk [] then index else update_index index rk (remove_string (index rk) v)) rk)
      ≡ (not (not (text_eq rk []) && text_eq rk rk && text_eq j v) && has j (index rk))
step_remove_same j v rk index u = elim (Bool-cases (text_eq rk [])) [
  | inl e ↦ rw e refl
  | inr e ↦ rw (e, text_eq_refl rk) (has-remove_string j v (index rk) u)
]

step_remove :
    (j v r rk : Text) (index : Text → List Text)
    → IsUnique (index rk)
    → has j ((if text_eq r [] then index else update_index index r (remove_string (index r) v)) rk)
      ≡ (not (not (text_eq rk []) && text_eq r rk && text_eq j v) && has j (index rk))
step_remove j v r rk index u = elim (Bool-cases (text_eq r rk)) [
  | inl same ↦
      let e : r ≡ rk = (text_eq_iff r rk).0 same in
      subst
        (λ x.
          has j
            ((if text_eq x [] then index else update_index index x (remove_string (index x) v)) rk)
          ≡ (not (not (text_eq rk []) && text_eq x rk && text_eq j v) && has j (index rk)))
        (sym e) (step_remove_same j v rk index u)
  | inr apart ↦ rw apart (ground (arith, apart))
]

module _ (f : List Text → List Text)
    (keeps : (keys : List Text) → IsUnique keys → IsUnique (f keys)) where
  step-IsUnique :
      (r : Text) (index : Text → List Text)
      → ((rk : Text) → IsUnique (index rk))
      → (rk : Text)
      → IsUnique ((if text_eq r [] then index else update_index index r (f (index r))) rk)
  step-IsUnique r index u rk = elim (Bool-cases (text_eq r [])) [
    | inl e ↦ rw e (u rk)
    | inr e ↦ rw e (elim (Bool-cases (text_eq r rk)) [
      | inl same ↦ rw same (keeps (index r) (u r))
      | inr apart ↦ rw apart (u rk)
    ])
  ]

  pub at_resources-IsUnique :
      (items : List RemediationItem) (index : Text → List Text)
      → ((rk : Text) → IsUnique (index rk))
      → (rk : Text) → IsUnique (at_resources f items index rk)
  unfolding at_resources
  at_resources-IsUnique [] index u rk = u rk
  at_resources-IsUnique (it ∷ items) index u rk =
      at_resources-IsUnique items _ (step-IsUnique it.resource_key index u) rk

pub at_resources-remove :
    (j v rk : Text) (items : List RemediationItem) (index : Text → List Text)
    → ((rk : Text) → IsUnique (index rk))
    → has j (at_resources (λ keys. remove_string keys v) items index rk)
      ≡ (not (not (text_eq rk []) && mentions rk items && text_eq j v) && has j (index rk))
unfolding at_resources
at_resources-remove j v rk [] index u = ground arith
at_resources-remove j v rk (it ∷ items) index u =
    let index' =
      if text_eq it.resource_key []
      then index
      else update_index index it.resource_key (remove_string (index it.resource_key) v) in
    let u' =
      step-IsUnique (λ keys. remove_string keys v) (remove_string-IsUnique v) it.resource_key index
        u in
    ground (
      arith,
      at_resources-remove j v rk items index' u',
      step_remove j v it.resource_key rk index (u rk),
    )
