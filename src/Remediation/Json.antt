-- ===== src/Remediation/Json.antt =====
-- internal/remediation/engine.go: extractJSON, which finds the JSON object in the LLM's answer.
pub mod Excerpt
mod Tests
use aotanami.Prelude.{
  ℕ, suc, ◌+◌, ◌-◌, ◌≡◌, Bool, true, false, Option, none, some, List, [], ◌∷◌, ◌++◌, Text, codes,
  has_prefix, trim_space, ◌==◌, if◌then◌else◌, length, drop,
}

-- The text before the first occurrence of `pat`, and the text behind it: `strings.Index` and the
-- slices taken at it. `none` is the index -1.
abbrev push : ℕ → Option (Text × Text) → Option (Text × Text)
push c none = none
push c (some (before, after)) = some (c ∷ before, after)

unfoldable pub find_cut : Text → Text → Option (Text × Text)
find_cut pat [] = if has_prefix [] pat then some ([], []) else none
find_cut pat (c ∷ s) =
    if has_prefix (c ∷ s) pat then some ([], drop (length pat) (c ∷ s)) else push c (find_cut pat s)

-- The text from the first occurrence of the byte on.
from_byte : ℕ → Text → Option Text
from_byte b [] = none
from_byte b (c ∷ s) = if c == b then some (c ∷ s) else from_byte b s

abbrev keep : ℕ → Option Text → Option Text
keep c none = none
keep c (some t) = some (c ∷ t)

-- The loop over the braces: the text up to the brace that brings the depth back to 0.
unfoldable pub close_braces : ℕ → Text → Option Text
close_braces depth [] = none
close_braces depth (c ∷ s) =
    let deeper = close_braces (depth + 1) s in
    let higher = close_braces (depth - 1) s in
    let same = close_braces depth s in
    if c == b'{'
    then keep c deeper
    else if c == b'}'
    then if depth - 1 == 0 then some (c ∷ []) else keep c higher
    else keep c same

abbrev or_else : Option Text → Option Text → Option Text
or_else none other = other
or_else (some t) other = some t

abbrev text_or : Option Text → Text
text_or none = []
text_or (some t) = t

abbrev fence : Text
fence = codes "```"

-- The text in a code block that `opening` begins, trimmed.
abbrev trimmed : Option (Text × Text) → Option Text
trimmed none = none
trimmed (some (body, rest)) = some (trim_space body)

abbrev body_after : Option (Text × Text) → Option Text
body_after none = none
body_after (some (before, after)) = trimmed (find_cut fence after)

fenced : Text → Text → Option Text
unfolding find_cut
fenced opening s = body_after (find_cut opening s)

abbrev if_object : Option Text → Option Text
if_object none = none
if_object (some t) = if has_prefix t (codes "{") then some t else none

abbrev close_from : Option Text → Option Text
close_from none = none
close_from (some t) = close_braces 0 t

-- A JSON object anywhere in the text.
braced : Text → Option Text
unfolding from_byte close_braces
braced s = close_from (from_byte b'{' s)

-- extractJSON
unfoldable pub extract_json : Text → Text
unfolding fenced braced trim_space
extract_json content =
    let s = trim_space content in
    if has_prefix s (codes "{")
    then s
    else text_or
        (or_else (fenced (codes "```json") s) (or_else (if_object (fenced fence s)) (braced s)))
