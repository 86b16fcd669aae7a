-- ===== src/Events/Remediations/Consistent.antt =====
-- The index by resource agrees with the contexts, whatever the store goes through.
use aotanami.Prelude.{
  ◌++◌, ◌-◌, take, length, leb, ◌||◌, ℕ, ◌==◌, ◌∷◌, refl, map, text_eq_refl, List, inr, arith, ◌∙◌,
  sym, inl, Bool-cases, ◌&&◌, none, [], some, not, false, Bool, ◌≡◌, Option, Text, text_eq,
}
use aotanami.Events.Remediations.{
  oldest_first, stored_context, append_unique, evict_if_over_capacity, remove_all, remove_locked,
  put, upsert, delete, remove_string, remove_context, RemediationContext, RemediationStore, lookup,
}
use aotanami.Events.Remediations.Lists.{
  lookup-snoc, append_unique-IsUnique, snoc-IsMap, text_eq_sym, lookup-same, lookup-delete,
  remove_string-IsUnique, delete-IsMap, IsUnique, IsMap, has,
}
use aotanami.Events.Remediations.Index.{
  at_resources-append, at_resources-remove, at_resources-IsUnique, mentions,
}

-- The context is there and mentions the resource.
abbrev pub holds : Text → Option RemediationContext → Bool
holds rk none = false
holds rk (some c) = mentions rk c.findings

-- The index by resource lists exactly the contexts that mention it, each once; the empty key is not
-- indexed.
pub record IsIndexed (s : RemediationStore) : Type 0 where
  pub mapped : IsMap s.by_key
  pub unique : (rk : Text) → IsUnique (s.resource_to_keys rk)
  pub indexed :
      (rk k : Text)
      → has k (s.resource_to_keys rk) ≡ (not (text_eq rk []) && holds rk (lookup k s.by_key))

remove_context-IsIndexed :
    (key : Text) (s : RemediationStore) (o : Option RemediationContext)
    → lookup key s.by_key ≡ o
    → IsIndexed s
    → IsIndexed (remove_context key s o)
remove_context-IsIndexed key s none e h = h
remove_context-IsIndexed key s (some ctx) e h = record {
  mapped = delete-IsMap key s.by_key h.mapped;
  unique =
      at_resources-IsUnique (λ keys. remove_string keys key) (remove_string-IsUnique key)
        ctx.findings s.resource_to_keys h.unique;
  indexed = λ rk k.
      let found = lookup-delete k key s.by_key h.mapped in
      let listed = at_resources-remove k key rk ctx.findings s.resource_to_keys h.unique in
      elim (Bool-cases (text_eq key k)) [
        | inl same ↦
            let there : lookup k s.by_key ≡ some ctx = sym (lookup-same key k s.by_key same) ∙ e in
            let gone : lookup k (delete key s.by_key) ≡ none = rw same at found in
            let old = h.indexed rk k in
            rw gone (ground (arith, listed, rw there at old, text_eq_sym key k))
        | inr apart ↦
            let still : lookup k (delete key s.by_key) ≡ lookup k s.by_key = rw apart at found in
            rw still (ground (arith, listed, h.indexed rk k, text_eq_sym key k))
      ];
}

pub remove_locked-IsIndexed :
    (key : Text) (s : RemediationStore) → IsIndexed s → IsIndexed (remove_locked key s)
unfolding remove_locked
remove_locked-IsIndexed key s h = remove_context-IsIndexed key s (lookup key s.by_key) refl h

remove_context-lookup :
    (key : Text) (s : RemediationStore) (o : Option RemediationContext)
    → lookup key s.by_key ≡ o
    → IsMap s.by_key
    → lookup key (remove_context key s o).by_key ≡ none
remove_context-lookup key s none e h = e
remove_context-lookup key s (some ctx) e h =
    rw (text_eq_refl key) at (lookup-delete key key s.by_key h)

-- A context whose key is free joins the map and the index.
pub put-IsIndexed :
    (ctx : RemediationContext) (s : RemediationStore) → IsIndexed s → IsIndexed (put ctx s)
unfolding put remove_locked
put-IsIndexed ctx s h =
    let s' = remove_locked ctx.key s in
    let h' = remove_locked-IsIndexed ctx.key s h in
    let free : lookup ctx.key s'.by_key ≡ none =
      remove_context-lookup ctx.key s (lookup ctx.key s.by_key) refl h.mapped in
    record {
      mapped = snoc-IsMap ctx.key ctx s'.by_key free h'.mapped;
      unique =
          at_resources-IsUnique (λ keys. append_unique keys ctx.key)
            (append_unique-IsUnique ctx.key) ctx.findings s'.resource_to_keys h'.unique;
      indexed = λ rk k.
          let found = lookup-snoc k ctx.key ctx s'.by_key free in
          let listed = at_resources-append k ctx.key rk ctx.findings s'.resource_to_keys in
          elim (Bool-cases (text_eq ctx.key k)) [
            | inl same ↦
                let there : lookup k (s'.by_key ++ (ctx.key, ctx) ∷ []) ≡ some ctx =
                  rw same at found in
                let before : lookup k s'.by_key ≡ none =
                  sym (lookup-same ctx.key k s'.by_key same) ∙ free in
                let old = h'.indexed rk k in
                rw there (ground (arith, listed, rw before at old, text_eq_sym ctx.key k))
            | inr apart ↦
                let still : lookup k (s'.by_key ++ (ctx.key, ctx) ∷ []) ≡ lookup k s'.by_key =
                  rw apart at found in
                rw still (ground (arith, listed, h'.indexed rk k, text_eq_sym ctx.key k))
          ];
    }

remove_all-IsIndexed :
    (es : List (Text × RemediationContext)) (s : RemediationStore)
    → IsIndexed s
    → IsIndexed (remove_all es s)
unfolding remove_all
remove_all-IsIndexed [] s h = h
remove_all-IsIndexed (e ∷ es) s h =
    remove_all-IsIndexed es (remove_locked e.0 s) (remove_locked-IsIndexed e.0 s h)

evict-IsIndexed : (s : RemediationStore) → IsIndexed s → IsIndexed (evict_if_over_capacity s)
unfolding evict_if_over_capacity
evict-IsIndexed s h = elim (Bool-cases (s.capacity == 0 || leb (length s.by_key) s.capacity)) [
  | inl e ↦ rw e h
  | inr e ↦
      rw e (remove_all-IsIndexed (take (length s.by_key - s.capacity) (oldest_first s.by_key)) s h)
]

pub upsert-IsIndexed :
    (now : ℕ) (ctx : RemediationContext) (s : RemediationStore)
    → IsIndexed s
    → IsIndexed (upsert now ctx s)
unfolding upsert
upsert-IsIndexed now ctx s h = elim (Bool-cases (text_eq ctx.pr_url [])) [
  | inl e ↦ rw e h
  | inr e ↦ rw e (
      evict-IsIndexed (put (stored_context now ctx) s) (put-IsIndexed (stored_context now ctx) s h))
]

-- A change of the contexts in place that keeps their keys and what they mention.
module _ (g : Text × RemediationContext → Text × RemediationContext)
    (same_key : (e : Text × RemediationContext) → (g e).0 ≡ e.0)
    (same_items : (rk : Text) (e : Text × RemediationContext)
      → mentions rk (g e).1.findings ≡ mentions rk e.1.findings) where
  lookup-map-none :
      (k : Text) (m : List (Text × RemediationContext))
      → lookup k m ≡ none
      → lookup k (map g m) ≡ none
  unfolding lookup
  lookup-map-none k [] h = refl
  lookup-map-none k (e ∷ m) h = elim (Bool-cases (text_eq e.0 k)) [
    | inl same ↦ absurd (ground (arith, same, h))
    | inr apart ↦ rw (same_key e) (rw apart (lookup-map-none k m (rw apart at h)))
  ]

  map-IsMap : (m : List (Text × RemediationContext)) → IsMap m → IsMap (map g m)
  map-IsMap [] h = tt
  map-IsMap (e ∷ m) (once, h) = (rw (same_key e) (lookup-map-none e.0 m once), map-IsMap m h)

  holds-map :
      (rk k : Text) (m : List (Text × RemediationContext))
      → holds rk (lookup k (map g m)) ≡ holds rk (lookup k m)
  unfolding lookup
  holds-map rk k [] = refl
  holds-map rk k (e ∷ m) = elim (Bool-cases (text_eq e.0 k)) [
    | inl same ↦ rw (same_key e) (rw same (same_items rk e))
    | inr apart ↦ rw (same_key e) (rw apart (holds-map rk k m))
  ]

  pub map-IsIndexed :
      (s : RemediationStore) → IsIndexed s → IsIndexed (record s { by_key = map g s.by_key })
  map-IsIndexed s h = record {
    mapped = map-IsMap s.by_key h.mapped;
    unique = h.unique;
    indexed = λ rk k. ground (arith, h.indexed rk k, holds-map rk k s.by_key);
  }
