-- ===== src/Events/Remediations/Lists.antt =====
-- The lists of keys of an index, and the map, as Boolean equations.
use aotanami.Prelude.{
  some, if◌then◌else◌, none, sym, ◌∙◌, inr, refl, inl, any, text_eq_iff, ◌&&◌, ap, [], false, arith,
  Bool, ◌||◌, ◌++◌, not, true, Bool-cases, ◌∷◌, ◌≡◌, List, Text, text_eq,
}
use aotanami.Events.Remediations.{delete, RemediationContext, remove_string, append_unique, lookup}

-- The key is in the list.
abbrev pub has : Text → List Text → Bool
has k keys = any (text_eq k) keys

-- No key is twice in the list.
abbrev pub IsUnique : List Text → Type 0
IsUnique [] = Unit
IsUnique (k ∷ keys) = (has k keys ≡ false) × IsUnique keys

pub text_eq_sym : (s t : Text) → text_eq s t ≡ text_eq t s
text_eq_sym s t = ground (arith, text_eq_iff s t, text_eq_iff t s)

-- Equal texts are found alike.
pub has-same : (j k : Text) (keys : List Text) → text_eq j k ≡ true → has j keys ≡ has k keys
has-same j k keys e = ap (λ x. has x keys) ((text_eq_iff j k).0 e)

has-snoc : (j v : Text) (keys : List Text) → has j (keys ++ v ∷ []) ≡ (text_eq j v || has j keys)
has-snoc j v [] = ground arith
has-snoc j v (k ∷ keys) = ground (arith, has-snoc j v keys)

pub has-append_unique :
    (j v : Text) (keys : List Text) → has j (append_unique keys v) ≡ (text_eq j v || has j keys)
unfolding append_unique
has-append_unique j v keys = elim (Bool-cases (any (text_eq v) keys)) [
  | inl e ↦ rw e (elim (Bool-cases (text_eq j v)) [
    | inl same ↦ rw same (has-same j v keys same ∙ e)
    | inr apart ↦ rw apart refl
  ])
  | inr e ↦ rw e (has-snoc j v keys)
]

snoc-IsUnique :
    (v : Text) (keys : List Text) → IsUnique keys → has v keys ≡ false → IsUnique (keys ++ v ∷ [])
snoc-IsUnique v [] u e = (refl, tt)
snoc-IsUnique v (k ∷ keys) (once, u) e =
    (ground (arith, has-snoc k v keys, text_eq_sym v k), snoc-IsUnique v keys u (ground (arith, e)))

pub append_unique-IsUnique :
    (v : Text) (keys : List Text) → IsUnique keys → IsUnique (append_unique keys v)
unfolding append_unique
append_unique-IsUnique v keys u = elim (Bool-cases (any (text_eq v) keys)) [
  | inl e ↦ rw e u
  | inr e ↦ rw e (snoc-IsUnique v keys u e)
]

pub has-remove_string :
    (j v : Text) (keys : List Text)
    → IsUnique keys
    → has j (remove_string keys v) ≡ (not (text_eq j v) && has j keys)
unfolding remove_string
has-remove_string j v [] u = ground arith
has-remove_string j v (k ∷ keys) (once, u) = elim (Bool-cases (text_eq k v)) [
  | inl e ↦ rw e (elim (Bool-cases (text_eq j v)) [
    | inl same ↦
        let met : text_eq j k ≡ true =
          (text_eq_iff j k).1 ((text_eq_iff j v).0 same ∙ sym ((text_eq_iff k v).0 e)) in
        rw same (has-same j k keys met ∙ once)
    | inr apart ↦
        let other : text_eq j k ≡ false = ap (text_eq j) ((text_eq_iff k v).0 e) ∙ apart in
        rw apart (rw other refl)
  ])
  | inr e ↦ rw e (
      ground
        (arith, has-remove_string j v keys u, text_eq_iff j v, text_eq_iff k v, text_eq_iff j k))
]

pub remove_string-IsUnique :
    (v : Text) (keys : List Text) → IsUnique keys → IsUnique (remove_string keys v)
unfolding remove_string
remove_string-IsUnique v [] u = tt
remove_string-IsUnique v (k ∷ keys) (once, u) = elim (Bool-cases (text_eq k v)) [
  | inl e ↦ rw e u
  | inr e ↦ rw e (ground (arith, has-remove_string k v keys u), remove_string-IsUnique v keys u)
]

-- No key is twice in the map.
abbrev pub IsMap : List (Text × RemediationContext) → Type 0
IsMap [] = Unit
IsMap (e ∷ m) = (lookup e.0 m ≡ none) × IsMap m

pub lookup-same :
    (j k : Text) (m : List (Text × RemediationContext))
    → text_eq j k ≡ true
    → lookup j m ≡ lookup k m
lookup-same j k m e = ap (λ x. lookup x m) ((text_eq_iff j k).0 e)

pub lookup-delete :
    (j k : Text) (m : List (Text × RemediationContext))
    → IsMap m
    → lookup j (delete k m) ≡ (if text_eq k j then none else lookup j m)
unfolding lookup delete
lookup-delete j k [] u = ground arith
lookup-delete j k ((i, c) ∷ m) (once, u) = elim (Bool-cases (text_eq i k)) [
  | inl e ↦ rw e (elim (Bool-cases (text_eq k j)) [
    | inl same ↦ rw same (
        lookup-same j i m
          ((text_eq_iff j i).1 (sym ((text_eq_iff i k).0 e ∙ (text_eq_iff k j).0 same)))
        ∙ once)
    | inr apart ↦
        let other : text_eq i j ≡ false = ap (λ x. text_eq x j) ((text_eq_iff i k).0 e) ∙ apart in
        rw apart (rw other refl)
  ])
  | inr e ↦
      rw e
        (ground (arith, lookup-delete j k m u, text_eq_iff i j, text_eq_iff k j, text_eq_iff i k))
]

pub delete-IsMap : (k : Text) (m : List (Text × RemediationContext)) → IsMap m → IsMap (delete k m)
unfolding delete
delete-IsMap k [] u = tt
delete-IsMap k ((i, c) ∷ m) (once, u) = elim (Bool-cases (text_eq i k)) [
  | inl e ↦ rw e u
  | inr e ↦ rw e (ground (arith, lookup-delete i k m u, once), delete-IsMap k m u)
]

pub lookup-snoc :
    (j k : Text) (c : RemediationContext) (m : List (Text × RemediationContext))
    → lookup k m ≡ none
    → lookup j (m ++ (k, c) ∷ []) ≡ (if text_eq k j then some c else lookup j m)
unfolding lookup
lookup-snoc j k c [] h = refl
lookup-snoc j k c ((i, d) ∷ m) h =
    ground (arith, lookup-snoc j k c m, text_eq_iff i j, text_eq_iff k j, text_eq_iff i k)

pub snoc-IsMap :
    (k : Text) (c : RemediationContext) (m : List (Text × RemediationContext))
    → lookup k m ≡ none
    → IsMap m
    → IsMap (m ++ (k, c) ∷ [])
unfolding lookup
snoc-IsMap k c [] h u = (refl, tt)
snoc-IsMap k c ((i, d) ∷ m) h (once, u) = elim (Bool-cases (text_eq i k)) [
  | inl e ↦ absurd (ground (arith, e, h))
  | inr e ↦
      let there : lookup k m ≡ none = rw e at h in
      (
        ground (arith, lookup-snoc i k c m there, text_eq_sym k i, e, once),
        snoc-IsMap k c m there u,
      )
]
