-- ===== src/Prelude/Decimal.antt =====
-- Decimal printing, as `fmt` does it with %d and %06d.
use Prim.Native.Nat.{ℕ, zero, suc, ◌+◌, ◌-◌, ◌/◌, ◌%◌}
use mathlib.Core.List.{[], ◌∷◌}
use aotanami.Prelude.Tests.{ltb, if◌then◌else◌}
use aotanami.Prelude.Lists.{length}
use aotanami.Prelude.Bytes.{Text}

-- The digits of `n` before `s`, with at most `fuel` of them.
abbrev digits_from : ℕ → ℕ → Text → Text
digits_from zero n s = s
digits_from (suc fuel) n s =
    let rest = digits_from fuel (n / 10) ((48 + n % 10) ∷ s) in
    if ltb n 10 then (48 + n) ∷ s else rest

-- A number of at most 64 bits has at most 20 digits.
unfoldable pub decimal : ℕ → Text
decimal n = digits_from 20 n []

-- Zeros before `s` up to the width.
abbrev zeros : ℕ → Text → Text
zeros zero s = s
zeros (suc n) s = b'0' ∷ zeros n s

unfoldable pub decimal_padded : ℕ → ℕ → Text
unfolding decimal
decimal_padded width n = zeros (width - length (decimal n)) (decimal n)
