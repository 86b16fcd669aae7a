-- ===== src/Prelude/Strings.antt =====
-- More of Go's strings: literals in UTF-8, %q, and the functions of `strings` that search.
use Prim.Native.Nat.{ℕ, ◌+◌, ◌/◌, ◌%◌}
use Prim.Native.Char.{code}
use Prim.Native.String.{String}
use mathlib.Core.Bool.{Bool, ◌&&◌, ◌||◌}
use mathlib.Core.List.{List, [], ◌∷◌, ◌++◌, map}
use aotanami.Prelude.Tests.{ltb, leb, ◌==◌, if◌then◌else◌}
use aotanami.Prelude.Bytes.{Text, codes, has_prefix}

-- A character in UTF-8.
abbrev encode : ℕ → Text
encode c =
    if ltb c 128
    then c ∷ []
    else if ltb c 2048
    then (192 + c / 64) ∷ (128 + c % 64) ∷ []
    else if ltb c 65536
    then (224 + c / 4096) ∷ (128 + c / 64 % 64) ∷ (128 + c % 64) ∷ []
    else (240 + c / 262144) ∷ (128 + c / 4096 % 64) ∷ (128 + c / 64 % 64) ∷ (128 + c % 64) ∷ []

-- The bytes of a literal.
abbrev pub utf8 : String → Text
utf8 String.[] = []
utf8 (String.◌∷◌ c s) = encode (code c) ++ utf8 s

abbrev hex_digit : ℕ → ℕ
hex_digit n = if ltb n 10 then 48 + n else 87 + n

-- A byte as %q writes it: quotes, backslashes and control characters are escaped. Bytes of 128 and
-- more are taken to be of printable characters, which stay as they are.
abbrev quote_byte : ℕ → Text
quote_byte c =
    if c == b'"' || c == b'\\'
    then b'\\' ∷ c ∷ []
    else if c == 7
    then codes "\\a"
    else if c == 8
    then codes "\\b"
    else if c == 9
    then codes "\\t"
    else if c == 10
    then codes "\\n"
    else if c == 11
    then codes "\\v"
    else if c == 12
    then codes "\\f"
    else if c == 13
    then codes "\\r"
    else if ltb c 32 || c == 127
    then b'\\' ∷ b'x' ∷ hex_digit (c / 16) ∷ hex_digit (c % 16) ∷ []
    else c ∷ []

abbrev quote_bytes : Text → Text
quote_bytes [] = []
quote_bytes (c ∷ s) = quote_byte c ++ quote_bytes s

-- %q
unfoldable pub quote : Text → Text
quote s = b'"' ∷ (quote_bytes s ++ b'"' ∷ [])

-- `strings.ToLower`, which changes the letters A to Z of ASCII.
unfoldable pub to_lower : Text → Text
to_lower s = map (λ c. if leb b'A' c && leb c b'Z' then c + 32 else c) s

-- `strings.Contains`
unfoldable pub contains : Text → Text → Bool
unfolding has_prefix
contains [] pat = has_prefix [] pat
contains (c ∷ s) pat = has_prefix (c ∷ s) pat || contains s pat

-- The text behind the last occurrence of the byte, or all of it: `s[strings.LastIndex(s, b)+1:]`.
abbrev behind_last : ℕ → Text → Text → Text
behind_last b [] best = best
behind_last b (c ∷ s) best = behind_last b s (if c == b then s else best)

unfoldable pub after_last : ℕ → Text → Text
after_last b s = behind_last b s s

-- strings.Join
abbrev pub join_by : Text → List Text → Text
join_by sep [] = []
join_by sep (s ∷ []) = s
join_by sep (s ∷ t ∷ ts) = s ++ sep ++ join_by sep (t ∷ ts)
