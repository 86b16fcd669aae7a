-- ===== src/Prelude/Bytes.antt =====
-- Go's strings as lists of bytes.
use Prim.Native.Nat.{ℕ}
use Prim.Native.Char.{code}
use Prim.Native.String.{String}
use mathlib.Core.Path.{◌≡◌, refl, ap, sym, ◌∙◌}
use mathlib.Core.Logic.{◌↔◌}
use mathlib.Core.Bool.{Bool, true, false, ◌&&◌, ◌||◌}
use mathlib.Core.List.{List, [], ◌∷◌, ◌++◌, reverse, reverse-append, reverse-reverse, append_assoc}
use native.Mathlib.Omega.{arith}
use aotanami.Prelude.Tests.{leb, ◌==◌, if◌then◌else◌}

abbrev pub Text : Type 0
Text = List ℕ

-- The bytes of an ASCII literal. `String` has its own `[]` and `∷`.
abbrev pub codes : String → Text
codes String.[] = []
codes (String.◌∷◌ c s) = code c ∷ codes s

-- Go's `s == t`.
unfoldable pub text_eq : Text → Text → Bool
text_eq [] [] = true
text_eq [] (d ∷ t) = false
text_eq (c ∷ s) [] = false
text_eq (c ∷ s) (d ∷ t) = c == d && text_eq s t

pub text_eq_iff : (s t : Text) → (text_eq s t ≡ true) ↔ (s ≡ t)
unfolding text_eq
text_eq_iff [] [] = ground arith
text_eq_iff [] (d ∷ t) = ground arith
text_eq_iff (c ∷ s) [] = ground arith
text_eq_iff (c ∷ s) (d ∷ t) = ground (arith, text_eq_iff s t)

pub text_eq_refl : (s : Text) → text_eq s s ≡ true
text_eq_refl s = (text_eq_iff s s).1 refl

-- `strings.HasPrefix`.
unfoldable pub has_prefix : Text → Text → Bool
has_prefix s [] = true
has_prefix [] (d ∷ p) = false
has_prefix (c ∷ s) (d ∷ p) = c == d && has_prefix s p

-- `strings.TrimPrefix`.
abbrev trim_prefix_or : Text → Text → Text → Text
trim_prefix_or whole s [] = s
trim_prefix_or whole [] (d ∷ p) = whole
trim_prefix_or whole (c ∷ s) (d ∷ p) =
    let rest = trim_prefix_or whole s p in if c == d then rest else whole

unfoldable pub trim_prefix : Text → Text → Text
trim_prefix s p = trim_prefix_or s s p

-- `strings.HasSuffix` and `strings.TrimSuffix`, from the end.
unfoldable pub has_suffix : Text → Text → Bool
unfolding has_prefix
has_suffix s p = has_prefix (reverse s) (reverse p)

unfoldable pub trim_suffix : Text → Text → Text
unfolding trim_prefix
trim_suffix s p = reverse (trim_prefix (reverse s) (reverse p))

-- A byte before parts already split: it begins a new part or joins the first one.
abbrev pub cut : Bool → ℕ → List Text → List Text
cut true c parts = [] ∷ parts
cut false c [] = (c ∷ []) ∷ []
cut false c (p ∷ parts) = (c ∷ p) ∷ parts

-- `strings.Split` at one byte: never empty.
unfoldable pub split : ℕ → Text → List Text
split sep [] = [] ∷ []
split sep (c ∷ s) = cut (c == sep) c (split sep s)

-- A prefix, and what follows it.
pub has_prefix_split : (s p : Text) → has_prefix s p ≡ true → (r : Text) × (s ≡ p ++ r)
unfolding has_prefix
has_prefix_split s [] h = (s, refl)
has_prefix_split [] (d ∷ p) h = absurd (ground (arith, h))
has_prefix_split (c ∷ s) (d ∷ p) h =
    let parts : (c ≡ d) × (has_prefix s p ≡ true) = ground arith in
    let (r, e) = has_prefix_split s p parts.1 in (r, cc (parts.0, e))

pub has_prefix-append : (p r : Text) → has_prefix (p ++ r) p ≡ true
unfolding has_prefix
has_prefix-append [] r = refl
has_prefix-append (d ∷ p) r = ground (arith, has_prefix-append p r)

-- White space of Unicode in UTF-8: one, two or three bytes.
abbrev is_space1 : ℕ → Bool
is_space1 a = (leb 9 a && leb a 13) || a == 32

abbrev is_space2 : ℕ → ℕ → Bool
is_space2 a b = a == 0xc2 && (b == 0x85 || b == 0xa0)

abbrev is_space3 : ℕ → ℕ → ℕ → Bool
is_space3 a b c =
    (a == 0xe1 && b == 0x9a && c == 0x80)
    || (a == 0xe2
        && b == 0x80
        && ((leb 0x80 c && leb c 0x8a) || c == 0xa8 || c == 0xa9 || c == 0xaf))
    || (a == 0xe2 && b == 0x81 && c == 0x9f)
    || (a == 0xe3 && b == 0x80 && c == 0x80)

-- `t` ends `s`.
abbrev pub EndOf : Text → Text → Type 0
EndOf s t = (pre : Text) × (s ≡ pre ++ t)

abbrev pub end_of_cons : (c : ℕ) (s t : Text) → EndOf s t → EndOf (c ∷ s) t
end_of_cons c s t (pre, e) = (c ∷ pre, ap (λ u. c ∷ u) e)

abbrev pub end_of_if :
    (b : Bool) (s t u : Text) → EndOf s t → EndOf s u → EndOf s (if b then t else u)
end_of_if true s t u h k = h
end_of_if false s t u h k = k

-- Without its leading white space, read from the left or, the tests turned round, from the right.
module _ (two : ℕ → ℕ → Bool) (three : ℕ → ℕ → ℕ → Bool) where
  unfoldable pub trim_by : Text → Text
  trim_by [] = []
  trim_by (a ∷ []) = if is_space1 a then [] else a ∷ []
  trim_by (a ∷ b ∷ []) =
      let one = trim_by (b ∷ []) in if is_space1 a then one else if two a b then [] else a ∷ b ∷ []
  trim_by (a ∷ b ∷ c ∷ s) =
      let after_one = trim_by (b ∷ c ∷ s) in
      let after_two = trim_by (c ∷ s) in
      let after_three = trim_by s in
      if is_space1 a
      then after_one
      else if two a b
      then after_two
      else if three a b c
      then after_three
      else a ∷ b ∷ c ∷ s

  pub trim_by-EndOf : (s : Text) → EndOf s (trim_by s)
  unfolding trim_by
  trim_by-EndOf [] = ([], refl)
  trim_by-EndOf (a ∷ []) = end_of_if (is_space1 a) (a ∷ []) [] (a ∷ []) (a ∷ [], refl) ([], refl)
  trim_by-EndOf (a ∷ b ∷ []) =
      let whole = a ∷ b ∷ [] in
      end_of_if (is_space1 a) whole (trim_by (b ∷ [])) _
        (end_of_cons a (b ∷ []) (trim_by (b ∷ [])) (trim_by-EndOf (b ∷ [])))
        (end_of_if (two a b) whole [] whole (whole, refl) ([], refl))
  trim_by-EndOf (a ∷ b ∷ c ∷ s) =
      let whole = a ∷ b ∷ c ∷ s in
      let h1 = end_of_cons a (b ∷ c ∷ s) _ (trim_by-EndOf (b ∷ c ∷ s)) in
      let h2 = end_of_cons a (b ∷ c ∷ s) _ (end_of_cons b (c ∷ s) _ (trim_by-EndOf (c ∷ s))) in
      let h3 =
        end_of_cons a (b ∷ c ∷ s) _
          (end_of_cons b (c ∷ s) _ (end_of_cons c s (trim_by s) (trim_by-EndOf s))) in
      end_of_if (is_space1 a) whole (trim_by (b ∷ c ∷ s)) _ h1 (
        end_of_if (two a b) whole (trim_by (c ∷ s)) _ h2
          (end_of_if (three a b c) whole (trim_by s) whole h3 ([], refl)))

-- `strings.TrimSpace`.
unfoldable pub trim_space : Text → Text
unfolding trim_by
trim_space s = reverse (
    trim_by (λ b a. is_space2 a b) (λ c b a. is_space3 a b c)
      (reverse (trim_by is_space2 is_space3 s)))

-- `t` is a contiguous part of `s`.
abbrev pub Within : Text → Text → Type 0
Within s t = (pre : Text) × (post : Text) × (s ≡ pre ++ (t ++ post))

pub trim_space-Within : (s : Text) → Within s (trim_space s)
unfolding trim_space
trim_space-Within s =
    let left = trim_by is_space2 is_space3 s in
    let (pre, e) = trim_by-EndOf is_space2 is_space3 s in
    let right = trim_by (λ b a. is_space2 a b) (λ c b a. is_space3 a b c) (reverse left) in
    let (post, h) =
      trim_by-EndOf (λ b a. is_space2 a b) (λ c b a. is_space3 a b c) (reverse left) in
    let back : left ≡ reverse right ++ reverse post =
      sym (reverse-reverse left) ∙ ap reverse h ∙ reverse-append post right in
    (pre, reverse post, e ∙ ap (λ t. pre ++ t) back)

pub Within-trans : (s t u : Text) → Within s t → Within t u → Within s u
Within-trans s t u (a, b, e) (c, d, h) = (a ++ c, d ++ b, rw (e, h) (simp append_assoc))
