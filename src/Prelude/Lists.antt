-- ===== src/Prelude/Lists.antt =====
-- Lists measured by native numbers, Boolean searches, and predicates by recursion.
use Prim.Native.Nat.{ℕ, zero, suc, ◌+◌, ◌-◌, ◌≤◌, min}
use mathlib.Core.Path.{◌≡◌, subst, sym, refl, ap, ◌∙◌}
use mathlib.Core.Logic.{◌⊎◌, inl, inr, ◌↔◌}
use mathlib.Core.Bool.{Bool, true, false, ◌&&◌, ◌||◌}
use mathlib.Core.List.{List, [], ◌∷◌, ◌++◌, map}
use native.Mathlib.Omega.{arith}
use aotanami.Prelude.Tests.{if◌then◌else◌, Bool-cases}

module _ {ℓ} {A : Type ℓ} where
  abbrev pub length : List A → ℕ
  length [] = 0
  length (x ∷ xs) = suc (length xs)

  abbrev pub take : ℕ → List A → List A
  take zero xs = []
  take (suc n) [] = []
  take (suc n) (x ∷ xs) = x ∷ take n xs

  abbrev pub drop : ℕ → List A → List A
  drop zero xs = xs
  drop (suc n) [] = []
  drop (suc n) (x ∷ xs) = drop n xs

  -- The elements that pass a Boolean test, in order.
  abbrev pub filter : (A → Bool) → List A → List A
  filter p [] = []
  filter p (x ∷ xs) = let rest = filter p xs in if p x then x ∷ rest else rest

  abbrev pub any : (A → Bool) → List A → Bool
  any p [] = false
  any p (x ∷ xs) = p x || any p xs

  abbrev pub all : (A → Bool) → List A → Bool
  all p [] = true
  all p (x ∷ xs) = p x && all p xs

  -- `P` holds of every element.
  abbrev pub All {κ} : (A → Type κ) → List A → Type κ
  All P [] = Unit
  All P (x ∷ xs) = P x × All P xs

  -- `P` holds of an element.
  abbrev pub Any : (A → Type 0) → List A → Type 0
  Any P [] = ⊥
  Any P (x ∷ xs) = P x ⊎ Any P xs

-- Two lists correspond, element by element.
abbrev pub Pairwise : {A : Type 0} → (A → A → Type 0) → List A → List A → Type 0
Pairwise R [] [] = Unit
Pairwise R [] (d ∷ ds) = ⊥
Pairwise R (c ∷ cs) [] = ⊥
Pairwise R (c ∷ cs) (d ∷ ds) = R c d × Pairwise R cs ds

-- `x` is one of `xs`.
abbrev pub Elem : {A : Type 0} → A → List A → Type 0
Elem x xs = Any (λ y. x ≡ y) xs

module _ {ℓ} {A : Type ℓ} where
  pub length-append : (xs ys : List A) → length (xs ++ ys) ≡ length xs + length ys
  length-append [] ys = omega arith
  length-append (x ∷ xs) ys = omega (arith, length-append xs ys)

  pub length-take : (n : ℕ) (xs : List A) → length (take n xs) ≡ min n (length xs)
  length-take zero xs = omega arith
  length-take (suc n) [] = omega arith
  length-take (suc n) (x ∷ xs) = omega (arith, length-take n xs)

  pub length-drop : (n : ℕ) (xs : List A) → length (drop n xs) ≡ length xs - n
  length-drop zero xs = omega arith
  length-drop (suc n) [] = omega arith
  length-drop (suc n) (x ∷ xs) = omega (arith, length-drop n xs)

  pub length-filter : (p : A → Bool) (xs : List A) → length (filter p xs) ≤ length xs
  length-filter p [] = omega arith
  length-filter p (x ∷ xs) = ground (arith, length-filter p xs)

  pub All-append {κ} : (P : A → Type κ) (xs ys : List A) → All P xs → All P ys → All P (xs ++ ys)
  All-append P [] ys h k = k
  All-append P (x ∷ xs) ys (h, hs) k = (h, All-append P xs ys hs k)

  -- What passes the filter passes the test.
  pub All-filter : (p : A → Bool) (xs : List A) → All (λ x. p x ≡ true) (filter p xs)
  All-filter p [] = tt
  All-filter p (x ∷ xs) = elim (Bool-cases (p x)) [
    | inl h ↦ rw h (h, All-filter p xs)
    | inr h ↦ rw h (All-filter p xs)
  ]

  pub All-filter_of_All {κ} :
      (P : A → Type κ) (p : A → Bool) (xs : List A) → All P xs → All P (filter p xs)
  All-filter_of_All P p [] h = tt
  All-filter_of_All P p (x ∷ xs) (h, hs) = elim (Bool-cases (p x)) [
    | inl e ↦ rw e (h, All-filter_of_All P p xs hs)
    | inr e ↦ rw e (All-filter_of_All P p xs hs)
  ]

  pub All-take {κ} : (P : A → Type κ) (n : ℕ) (xs : List A) → All P xs → All P (take n xs)
  All-take P zero xs h = tt
  All-take P (suc n) [] h = tt
  All-take P (suc n) (x ∷ xs) (h, hs) = (h, All-take P n xs hs)

  -- What holds of everything holds of every element.
  pub everywhere {κ} : {P : A → Type κ} → ((x : A) → P x) → (xs : List A) → All P xs
  everywhere h [] = tt
  everywhere h (x ∷ xs) = (h x, everywhere h xs)

  pub All-map {κ} : (P Q : A → Type κ) → ((x : A) → P x → Q x) → (xs : List A) → All P xs → All Q xs
  All-map P Q f [] h = tt
  All-map P Q f (x ∷ xs) (h, hs) = (f x h, All-map P Q f xs hs)

module _ {A : Type 0} where
  pub All-Elem {κ} : (P : A → Type κ) (x : A) (xs : List A) → All P xs → Elem x xs → P x
  All-Elem P x (y ∷ xs) (h, hs) (inl e) = subst P (sym e) h
  All-Elem P x (y ∷ xs) (h, hs) (inr m) = All-Elem P x xs hs m
  All-Elem P x [] h m = absurd m

module _ {A : Type 0} where
  pub Elem-filter_iff :
      (p : A → Bool) (x : A) (xs : List A) → Elem x (filter p xs) ↔ (Elem x xs × (p x ≡ true))
  Elem-filter_iff p x [] = ((λ m. absurd m), λ m. absurd m.0)
  Elem-filter_iff p x (y ∷ xs) =
      let (to, from) = Elem-filter_iff p x xs in
      elim (Bool-cases (p y)) [
        | inl e ↦ rw e (
          elim [ inl h ↦ (inl h, ap p h ∙ e) | inr m ↦ (inr (to m).0, (to m).1) ],
          λ k. elim k.0 [ inl h ↦ inl h | inr m ↦ inr (from (m, k.1)) ],
        )
        | inr e ↦ rw e (
          (λ m. (inr (to m).0, (to m).1)),
          λ k. elim k.0 [ inl h ↦ absurd (ground (arith, e, ap p h, k.1)) | inr m ↦ from (m, k.1) ],
        )
      ]

  pub any_iff :
      (p : A → Bool) (P : A → Type 0)
      → ((x : A) → (p x ≡ true) ↔ P x)
      → (xs : List A) → (any p xs ≡ true) ↔ Any P xs
  any_iff p P h [] = ((λ e. absurd (ground (arith, e))), λ m. absurd m)
  any_iff p P h (x ∷ xs) =
      let (to, from) = any_iff p P h xs in
      elim (Bool-cases (p x)) [
        | inl e ↦ rw e ((λ _. inl ((h x).0 e)), λ _. refl)
        | inr e ↦ rw e (
          (λ k. inr (to k)),
          elim [ inl q ↦ absurd (ground (arith, e, (h x).1 q)) | inr m ↦ from m ],
        )
      ]

module _ {A : Type 0} where
  pub Any-iff : (P Q : A → Type 0) → ((x : A) → P x ↔ Q x) → (xs : List A) → Any P xs ↔ Any Q xs
  Any-iff P Q h [] = ((λ m. m), λ m. m)
  Any-iff P Q h (x ∷ xs) =
      let (to, from) = Any-iff P Q h xs in
      (
        elim [ inl p ↦ inl ((h x).0 p) | inr m ↦ inr (to m) ],
        elim [ inl q ↦ inl ((h x).1 q) | inr m ↦ inr (from m) ],
      )

  pub All-iff : (P Q : A → Type 0) → ((x : A) → P x ↔ Q x) → (xs : List A) → All P xs ↔ All Q xs
  All-iff P Q h [] = ((λ m. m), λ m. m)
  All-iff P Q h (x ∷ xs) =
      let (to, from) = All-iff P Q h xs in
      ((λ m. ((h x).0 m.0, to m.1)), λ m. ((h x).1 m.0, from m.1))

module _ {A B : Type 0} where
  pub length-map : (f : A → B) (xs : List A) → length (map f xs) ≡ length xs
  length-map f [] = refl
  length-map f (x ∷ xs) = omega (arith, length-map f xs)

module _ {A : Type 0} (R : A → A → Type 0) (f : A → A) where
  pub map-Pairwise : ((x : A) → R x (f x)) → (xs : List A) → Pairwise R xs (map f xs)
  map-Pairwise h [] = tt
  map-Pairwise h (x ∷ xs) = (h x, map-Pairwise h xs)
