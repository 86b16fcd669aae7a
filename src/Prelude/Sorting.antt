-- ===== src/Prelude/Sorting.antt =====
-- sort.Slice by a numeric key, as an insertion sort, and what it keeps.
use Prim.Native.Nat.{ℕ, suc, ◌≤◌}
use mathlib.Core.Path.{◌≡◌, refl}
use mathlib.Core.Logic.{◌⊎◌, inl, inr, ◌↔◌}
use mathlib.Core.List.{List, [], ◌∷◌, ◌++◌}
use native.Mathlib.Omega.{arith}
use aotanami.Prelude.Tests.{if◌then◌else◌, leb, leb→le, Bool-cases}
use aotanami.Prelude.Lists.{Elem, All, All-map, length}

module _ {A : Type 0} (key : A → ℕ) where
  unfoldable pub insert_by : A → List A → List A
  insert_by x [] = x ∷ []
  insert_by x (y ∷ ys) =
      let rest = insert_by x ys in if leb (key x) (key y) then x ∷ y ∷ ys else y ∷ rest

  unfoldable pub sort_by : List A → List A
  unfolding insert_by
  sort_by [] = []
  sort_by (x ∷ xs) = insert_by x (sort_by xs)

  -- No element stands before one with a smaller key.
  abbrev pub IsSortedBy : List A → Type 0
  IsSortedBy [] = Unit
  IsSortedBy (x ∷ xs) = All (λ y. key x ≤ key y) xs × IsSortedBy xs

  Elem-insert_by_iff : (z x : A) (xs : List A) → Elem z (insert_by x xs) ↔ ((z ≡ x) ⊎ Elem z xs)
  unfolding insert_by
  Elem-insert_by_iff z x [] = ((λ m. m), λ m. m)
  Elem-insert_by_iff z x (y ∷ ys) =
      let (to, from) = Elem-insert_by_iff z x ys in
      elim (Bool-cases (leb (key x) (key y))) [
        | inl e ↦ rw e ((λ m. m), λ m. m)
        | inr e ↦ rw e (
          elim [
            | inl h ↦ inr (inl h)
            | inr m ↦ elim (to m) [ inl h ↦ inl h | inr k ↦ inr (inr k) ]
          ],
          elim [
            | inl h ↦ inr (from (inl h))
            | inr m ↦ elim m [ inl h ↦ inl h | inr k ↦ inr (from (inr k)) ]
          ],
        )
      ]

  pub Elem-sort_by_iff : (z : A) (xs : List A) → Elem z (sort_by xs) ↔ Elem z xs
  unfolding sort_by
  Elem-sort_by_iff z [] = ((λ m. m), λ m. m)
  Elem-sort_by_iff z (x ∷ xs) =
      let (to, from) = Elem-insert_by_iff z x (sort_by xs) in
      let (to', from') = Elem-sort_by_iff z xs in
      (
        (λ m. elim (to m) [ inl h ↦ inl h | inr k ↦ inr (to' k) ]),
        elim [ inl h ↦ from (inl h) | inr k ↦ from (inr (from' k)) ],
      )

  pub All-insert_by :
      (P : A → Type 0) (x : A) (xs : List A) → P x → All P xs → All P (insert_by x xs)
  unfolding insert_by
  All-insert_by P x [] h hs = (h, tt)
  All-insert_by P x (y ∷ ys) h (k, ks) = elim (Bool-cases (leb (key x) (key y))) [
    | inl e ↦ rw e (h, (k, ks))
    | inr e ↦ rw e (k, All-insert_by P x ys h ks)
  ]

  pub All-sort_by : (P : A → Type 0) (xs : List A) → All P xs → All P (sort_by xs)
  unfolding sort_by
  All-sort_by P [] h = tt
  All-sort_by P (x ∷ xs) (h, hs) = All-insert_by P x (sort_by xs) h (All-sort_by P xs hs)

  insert_by-IsSortedBy : (x : A) (xs : List A) → IsSortedBy xs → IsSortedBy (insert_by x xs)
  unfolding insert_by
  insert_by-IsSortedBy x [] s = (tt, tt)
  insert_by-IsSortedBy x (y ∷ ys) (low, s) = elim (Bool-cases (leb (key x) (key y))) [
    | inl e ↦
        let le : key x ≤ key y = leb→le _ _ e in
        rw e ((le, All-map _ _ (λ h k. omega arith) ys low), (low, s))
    | inr e ↦ rw e (All-insert_by _ x ys (ground arith) low, insert_by-IsSortedBy x ys s)
  ]

  pub sort_by-IsSortedBy : (xs : List A) → IsSortedBy (sort_by xs)
  unfolding sort_by
  sort_by-IsSortedBy [] = tt
  sort_by-IsSortedBy (x ∷ xs) = insert_by-IsSortedBy x (sort_by xs) (sort_by-IsSortedBy xs)

  length-insert_by : (x : A) (xs : List A) → length (insert_by x xs) ≡ suc (length xs)
  unfolding insert_by
  length-insert_by x [] = refl
  length-insert_by x (y ∷ ys) = ground (arith, length-insert_by x ys)

  pub length-sort_by : (xs : List A) → length (sort_by xs) ≡ length xs
  unfolding sort_by
  length-sort_by [] = refl
  length-sort_by (x ∷ xs) = omega (arith, length-insert_by x (sort_by xs), length-sort_by xs)

  -- What a sorted list begins with has no larger key than the rest.
  pub IsSortedBy-append :
      (xs ys : List A) → IsSortedBy (xs ++ ys) → All (λ x. All (λ y. key x ≤ key y) ys) xs
  IsSortedBy-append [] ys s = tt
  IsSortedBy-append (x ∷ xs) ys (low, s) = (All-after xs low, IsSortedBy-append xs ys s)
    where
      All-after : (zs : List A) → All (λ y. key x ≤ key y) (zs ++ ys) → All (λ y. key x ≤ key y) ys
      All-after [] h = h
      All-after (z ∷ zs) (h, hs) = All-after zs hs
