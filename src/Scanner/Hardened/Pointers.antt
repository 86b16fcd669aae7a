-- ===== src/Scanner/Hardened/Pointers.antt =====
-- What the tests of a pointer or a number say.
use aotanami.Scanner.Pod.{is_unset_or, is_set, is_zero}
use aotanami.Prelude.{none, arith, true, some, ◌≢◌, ◌↔◌, false, not, ◌≡◌, Option, Bool, ◌==◌, ℕ}

pub is_set-false_iff : (o : Option Bool) → (is_set o ≡ false) ↔ (o ≢ some true)
is_set-false_iff none = ground arith
is_set-false_iff (some true) = ground arith
is_set-false_iff (some false) = ground arith

pub not-is_set_iff : (o : Option Bool) → (not (is_set o) ≡ false) ↔ (o ≡ some true)
not-is_set_iff none = ground arith
not-is_set_iff (some true) = ground arith
not-is_set_iff (some false) = ground arith

pub is_unset_or_iff : (o : Option Bool) → (is_unset_or o ≡ false) ↔ (o ≡ some false)
is_unset_or_iff none = ground arith
is_unset_or_iff (some true) = ground arith
is_unset_or_iff (some false) = ground arith

pub is_zero_iff : (o : Option ℕ) → (is_zero o ≡ false) ↔ (o ≢ some 0)
is_zero_iff none = ground arith
is_zero_iff (some n) = ground arith

pub false_iff : (b : Bool) → (b ≡ false) ↔ (b ≡ false)
false_iff b = ((λ e. e), λ e. e)

pub not_zero_iff : (n : ℕ) → ((n == 0) ≡ false) ↔ (n ≢ 0)
not_zero_iff n = ground arith
