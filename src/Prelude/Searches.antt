-- ===== src/Prelude/Searches.antt =====
-- What is found in a list that was extended or filtered.
use Prim.Native.Nat.{◌≤◌}
use mathlib.Core.Path.{◌≡◌}
use mathlib.Core.Logic.{inl, inr}
use mathlib.Core.Bool.{Bool, true}
use mathlib.Core.List.{List, [], ◌∷◌, ◌++◌}
use native.Mathlib.Omega.{arith}
use aotanami.Prelude.Tests.{Bool-cases}
use aotanami.Prelude.Lists.{Any, filter, length}

pub length-filter_last :
    {A : Type 0} (p : A → Bool) (xs : List A) (y : A)
    → p y ≡ true
    → 1 ≤ length (filter p (xs ++ y ∷ []))
length-filter_last p [] y e = ground (arith, e)
length-filter_last p (x ∷ xs) y e = ground (arith, length-filter_last p xs y e)

-- Searches in lists.
module _ {A : Type 0} (P : A → Type 0) where
  pub Any-append_left : (xs ys : List A) → Any P xs → Any P (xs ++ ys)
  Any-append_left [] ys m = absurd m
  Any-append_left (x ∷ xs) ys (inl p) = inl p
  Any-append_left (x ∷ xs) ys (inr m) = inr (Any-append_left xs ys m)

  pub Any-snoc : (xs : List A) (x : A) → P x → Any P (xs ++ x ∷ [])
  Any-snoc [] x p = inl p
  Any-snoc (y ∷ xs) x p = inr (Any-snoc xs x p)

  pub Any-filter :
      (p : A → Bool) (xs : List A) → ((x : A) → P x → p x ≡ true) → Any P xs → Any P (filter p xs)
  Any-filter p [] h m = absurd m
  Any-filter p (x ∷ xs) h m = elim (Bool-cases (p x)) [
    | inl e ↦ rw e (elim m [ inl q ↦ inl q | inr k ↦ inr (Any-filter p xs h k) ])
    | inr e ↦
        rw e (elim m [ inl q ↦ absurd (ground (arith, e, h x q)) | inr k ↦ Any-filter p xs h k ])
  ]

  pub length-filter_two :
      (p : A → Bool) (xs : List A) (y : A)
      → ((x : A) → P x → p x ≡ true)
      → Any P xs
      → p y ≡ true
      → 2 ≤ length (filter p (xs ++ y ∷ []))
  length-filter_two p [] y h m e = absurd m
  length-filter_two p (x ∷ xs) y h (inl q) e = ground (arith, h x q, length-filter_last p xs y e)
  length-filter_two p (x ∷ xs) y h (inr k) e = ground (arith, length-filter_two p xs y h k e)
