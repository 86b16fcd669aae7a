-- ===== src/Prelude/Gather.antt =====
-- Loops that append what each element gives, and what is in the result.
use mathlib.Core.Path.{◌≡◌, refl}
use mathlib.Core.Logic.{◌↔◌, ◌⊎◌, inl, inr}
use mathlib.Core.Bool.{Bool, true, false}
use mathlib.Core.List.{List, [], ◌∷◌, ◌++◌}
use native.Mathlib.Omega.{arith}
use aotanami.Prelude.Tests.{if◌then◌else◌}
use aotanami.Prelude.Lists.{All-map, All, All-append, Any, Elem}

module _ {A B : Type 0} where
  -- `for x in xs { out = append(out, f(x)...) }`
  abbrev pub gather : (A → List B) → List A → List B
  gather f [] = []
  gather f (x ∷ xs) = f x ++ gather f xs

  pub All-gather {κ} :
      (P : B → Type κ) (f : A → List B)
      → ((x : A) → All P (f x))
      → (xs : List A) → All P (gather f xs)
  All-gather P f h [] = tt
  All-gather P f h (x ∷ xs) = All-append P (f x) (gather f xs) (h x) (All-gather P f h xs)

module _ {B : Type 0} where
  -- `if b { out = append(out, x) }`
  abbrev pub when : Bool → B → List B
  when b x = if b then x ∷ [] else []

  pub All-when {κ} : (P : B → Type κ) (b : Bool) (x : B) → P x → All P (when b x)
  All-when P true x h = (h, tt)
  All-when P false x h = tt

  pub when-nil_iff : (b : Bool) (x : B) → (when b x ≡ []) ↔ (b ≡ false)
  when-nil_iff true x = ground arith
  when-nil_iff false x = ground arith

  pub append-nil_iff : (xs ys : List B) → (xs ++ ys ≡ []) ↔ ((xs ≡ []) × (ys ≡ []))
  append-nil_iff [] ys = ((λ e. (refl, e)), λ h. h.1)
  append-nil_iff (x ∷ xs) ys = ground arith

  pub Elem-append_iff : (x : B) (xs ys : List B) → Elem x (xs ++ ys) ↔ (Elem x xs ⊎ Elem x ys)
  Elem-append_iff x [] ys = (inr, elim [ inl m ↦ absurd m | inr m ↦ m ])
  Elem-append_iff x (y ∷ xs) ys =
      let (to, from) = Elem-append_iff x xs ys in
      (
        elim [ inl e ↦ inl (inl e) | inr m ↦ elim (to m) [ inl h ↦ inl (inr h) | inr h ↦ inr h ] ],
        elim [
          | inl h ↦ elim h [ inl e ↦ inl e | inr m ↦ inr (from (inl m)) ]
          | inr m ↦ inr (from (inr m))
        ],
      )

module _ {A B : Type 0} where
  pub gather-nil_iff :
      (f : A → List B) (P : A → Type 0)
      → ((x : A) → (f x ≡ []) ↔ P x)
      → (xs : List A) → (gather f xs ≡ []) ↔ All P xs
  gather-nil_iff f P h [] = ((λ e. tt), λ e. refl)
  gather-nil_iff f P h (x ∷ xs) =
      let (split, glue) = append-nil_iff (f x) (gather f xs) in
      let (to, from) = gather-nil_iff f P h xs in
      ((λ e. ((h x).0 (split e).0, to (split e).1)), λ k. glue ((h x).1 k.0, from k.1))

  pub Elem-gather_iff :
      (f : A → List B) (y : B) (xs : List A) → Elem y (gather f xs) ↔ Any (λ x. Elem y (f x)) xs
  Elem-gather_iff f y [] = ((λ m. absurd m), λ m. absurd m)
  Elem-gather_iff f y (x ∷ xs) =
      let (to, from) = Elem-append_iff y (f x) (gather f xs) in
      let (to', from') = Elem-gather_iff f y xs in
      (
        (λ m. elim (to m) [ inl h ↦ inl h | inr h ↦ inr (to' h) ]),
        elim [ inl h ↦ from (inl h) | inr h ↦ from (inr (from' h)) ],
      )

-- Equivalences for lists that are built piece by piece.
module _ {B : Type 0} {P Q : Type 0} where
  pub both_nil : (xs ys : List B) → ((xs ≡ []) ↔ P) → ((ys ≡ []) ↔ Q) → (xs ++ ys ≡ []) ↔ (P × Q)
  both_nil xs ys h k =
      let (split, glue) = append-nil_iff xs ys in
      ((λ e. (h.0 (split e).0, k.0 (split e).1)), λ m. glue (h.1 m.0, k.1 m.1))

module _ {B : Type 0} {P : Type 0} where
  pub when_nil : (b : Bool) (x : B) → ((b ≡ false) ↔ P) → (when b x ≡ []) ↔ P
  when_nil b x h = let (to, from) = when-nil_iff b x in ((λ e. h.0 (to e)), λ p. from (h.1 p))

  pub skip_nil :
      (b : Bool) (xs : List B) → ((xs ≡ []) ↔ P) → ((if b then [] else xs) ≡ []) ↔ ((b ≡ true) ⊎ P)
  skip_nil true xs h = ((λ e. inl refl), λ m. refl)
  skip_nil false xs h =
      ((λ e. inr (h.0 e)), elim [ inl e ↦ absurd (ground (arith, e)) | inr p ↦ h.1 p ])

module _ {A B : Type 0} where
  -- What holds of each element's results holds of all with the element that they come from.
  pub All-gather-Any :
      (Q : A → B → Type 0) (f : A → List B)
      → ((x : A) → All (Q x) (f x))
      → (xs : List A) → All (λ y. Any (λ x. Q x y) xs) (gather f xs)
  All-gather-Any Q f h [] = tt
  All-gather-Any Q f h (x ∷ xs) =
      All-append _ (f x) (gather f xs) (All-map _ _ (λ y q. inl q) (f x) (h x))
        (All-map _ _ (λ y q. inr q) (gather f xs) (All-gather-Any Q f h xs))
