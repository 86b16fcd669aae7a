-- ===== src/Remediation/Json/Excerpt.antt =====
-- What extractJSON returns is a part of the LLM's answer.
use aotanami.Prelude.{
  codes, trim_space-Within, append_assoc, false, sym, if◌then◌else◌, ◌∙◌, trim_space, end_of_cons,
  ◌==◌, Bool, EndOf, refl, length, drop, inr, inl, true, has_prefix, Bool-cases, ap, ℕ, ◌+◌, ◌-◌,
  ◌≡◌, ◌++◌, [], ◌∷◌, Option, none, some, Text, Within, Within-trans, arith,
}
use aotanami.Remediation.Json.{
  if_object, close_from, trimmed, body_after, fence, find_cut, from_byte, close_braces, fenced,
  braced, extract_json, push, keep, or_else, text_or,
}

-- What there is, is within `s`.
abbrev WithinSome : Text → Option Text → Type 0
WithinSome s none = Unit
WithinSome s (some t) = Within s t

drop-length : (p s : Text) → has_prefix s p ≡ true → s ≡ p ++ drop (length p) s
unfolding has_prefix
drop-length [] s h = refl
drop-length (d ∷ p) [] h = absurd (ground (arith, h))
drop-length (d ∷ p) (c ∷ s) h =
    let parts : (c ≡ d) × (has_prefix s p ≡ true) = ground arith in
    cc (parts.0, drop-length p s parts.1)

-- Both parts of a cut, and what is between them.
abbrev IsCut : Text → Text → Option (Text × Text) → Type 0
IsCut pat s none = Unit
IsCut pat s (some (before, after)) = s ≡ before ++ (pat ++ after)

push-IsCut :
    (pat s : Text) (c : ℕ) (o : Option (Text × Text)) → IsCut pat s o → IsCut pat (c ∷ s) (push c o)
push-IsCut pat s c none h = tt
push-IsCut pat s c (some (before, after)) h = ap (λ t. c ∷ t) h

nil-IsCut : (pat : Text) → IsCut pat [] (find_cut pat [])
unfolding find_cut has_prefix
nil-IsCut [] = refl
nil-IsCut (d ∷ p) = tt

find_cut-IsCut : (pat s : Text) → IsCut pat s (find_cut pat s)
unfolding find_cut
find_cut-IsCut pat [] = nil-IsCut pat
find_cut-IsCut pat (c ∷ s) = elim (Bool-cases (has_prefix (c ∷ s) pat)) [
  | inl e ↦ rw e (drop-length pat (c ∷ s) e)
  | inr e ↦ rw e (push-IsCut pat s c (find_cut pat s) (find_cut-IsCut pat s))
]

-- `t` begins `s`, if there is a `t`.
abbrev Begins : Text → Option Text → Type 0
Begins s none = Unit
Begins s (some t) = (post : Text) × (s ≡ t ++ post)

keep-Begins : (c : ℕ) (s : Text) (o : Option Text) → Begins s o → Begins (c ∷ s) (keep c o)
keep-Begins c s none h = tt
keep-Begins c s (some t) (post, e) = (post, ap (λ u. c ∷ u) e)

if-Begins :
    (b : Bool) (s : Text) (o o' : Option Text)
    → Begins s o
    → Begins s o'
    → Begins s (if b then o else o')
if-Begins true s o o' h k = h
if-Begins false s o o' h k = k

close_braces-Begins : (depth : ℕ) (s : Text) → Begins s (close_braces depth s)
unfolding close_braces
close_braces-Begins depth [] = tt
close_braces-Begins depth (c ∷ s) =
    let deeper = keep-Begins c s (close_braces (depth + 1) s) (close_braces-Begins (depth + 1) s) in
    let higher = keep-Begins c s (close_braces (depth - 1) s) (close_braces-Begins (depth - 1) s) in
    let same = keep-Begins c s (close_braces depth s) (close_braces-Begins depth s) in
    if-Begins (c == b'{') (c ∷ s) _ _ deeper (
      if-Begins (c == b'}') (c ∷ s) _ _
        (if-Begins (depth - 1 == 0) (c ∷ s) (some (c ∷ [])) _ (s, refl) higher) same)

-- From its first brace on the text is an end of it.
abbrev EndsSome : Text → Option Text → Type 0
EndsSome s none = Unit
EndsSome s (some t) = EndOf s t

from_byte-EndsSome : (b : ℕ) (s : Text) → EndsSome s (from_byte b s)
unfolding from_byte
from_byte-EndsSome b [] = tt
from_byte-EndsSome b (c ∷ s) = elim (Bool-cases (c == b)) [
  | inl e ↦ rw e ([], refl)
  | inr e ↦ rw e (later (from_byte b s) (from_byte-EndsSome b s))
]
  where
    later : (o : Option Text) → EndsSome s o → EndsSome (c ∷ s) o
    later none h = tt
    later (some t) h = end_of_cons c s t h

Begins-WithinSome : (s t : Text) (o : Option Text) → EndOf s t → Begins t o → WithinSome s o
Begins-WithinSome s t none (pre, e) h = tt
Begins-WithinSome s t (some u) (pre, e) (post, h) = (pre, post, e ∙ ap (λ x. pre ++ x) h)

close_from-WithinSome : (s : Text) (o : Option Text) → EndsSome s o → WithinSome s (close_from o)
close_from-WithinSome s none h = tt
close_from-WithinSome s (some t) h =
    Begins-WithinSome s t (close_braces 0 t) h (close_braces-Begins 0 t)

braced-WithinSome : (s : Text) → WithinSome s (braced s)
unfolding braced
braced-WithinSome s = close_from-WithinSome s (from_byte b'{' s) (from_byte-EndsSome b'{' s)

trimmed_body :
    (s before opening after body rest : Text)
    → s ≡ before ++ (opening ++ after)
    → after ≡ body ++ (fence ++ rest)
    → Within s (trim_space body)
trimmed_body s before opening after body rest e h =
    Within-trans s body (trim_space body)
      (
        before ++ opening,
        fence ++ rest,
        e
            ∙ ap (λ x. before ++ (opening ++ x)) h
            ∙ sym (append_assoc before opening (body ++ (fence ++ rest))),
      )
      (trim_space-Within body)

trimmed-WithinSome :
    (s before opening after : Text) (o : Option (Text × Text))
    → s ≡ before ++ (opening ++ after)
    → IsCut fence after o
    → WithinSome s (trimmed o)
trimmed-WithinSome s before opening after none e h = tt
trimmed-WithinSome s before opening after (some (body, rest)) e h =
    trimmed_body s before opening after body rest e h

body_after-WithinSome :
    (opening s : Text) (o : Option (Text × Text)) → IsCut opening s o → WithinSome s (body_after o)
body_after-WithinSome opening s none h = tt
body_after-WithinSome opening s (some (before, after)) h =
    trimmed-WithinSome s before opening after (find_cut fence after) h (find_cut-IsCut fence after)

fenced-WithinSome : (opening s : Text) → WithinSome s (fenced opening s)
unfolding fenced
fenced-WithinSome opening s =
    body_after-WithinSome opening s (find_cut opening s) (find_cut-IsCut opening s)

if_object-WithinSome : (s : Text) (o : Option Text) → WithinSome s o → WithinSome s (if_object o)
if_object-WithinSome s none h = tt
if_object-WithinSome s (some t) h = elim (Bool-cases (has_prefix t (codes "{"))) [
  | inl e ↦ rw e h
  | inr e ↦ rw e tt
]

or_else-WithinSome :
    (s : Text) (o o' : Option Text) → WithinSome s o → WithinSome s o' → WithinSome s (or_else o o')
or_else-WithinSome s none o' h k = k
or_else-WithinSome s (some t) o' h k = h

text_or-Within : (s : Text) (o : Option Text) → WithinSome s o → Within s (text_or o)
text_or-Within s none h = ([], s, refl)
text_or-Within s (some t) h = h

-- Whatever the LLM answers, the text that extractJSON takes for JSON is a contiguous part of the
-- answer, or empty: nothing is put together or made up.
pub extract_json-Within : (content : Text) → Within content (extract_json content)
unfolding extract_json
extract_json-Within content =
    let s = trim_space content in
    elim (Bool-cases (has_prefix s (codes "{"))) [
      | inl e ↦ rw e (trim_space-Within content)
      | inr e ↦ rw e (
          Within-trans content s _ (trim_space-Within content) (
            text_or-Within s
              (or_else (fenced (codes "```json") s)
                (or_else (if_object (fenced fence s)) (braced s)))
              (or_else-WithinSome s _ _ (fenced-WithinSome (codes "```json") s) (
                or_else-WithinSome s _ _ (if_object-WithinSome s _ (fenced-WithinSome fence s))
                  (braced-WithinSome s)))))
    ]
