-- ===== src/Events/Remediations/Resolved.antt =====
-- MarkResolved follows the index; it has the effect of a search through all contexts.
use mathlib.Core.Option
use aotanami.Events.Remediations.Consistent.{upsert-IsIndexed, holds, map-IsIndexed, IsIndexed}
use aotanami.Prelude.{
  text_eq_iff, ◌∙◌, false, ap, arith, not, inr, ◌&&◌, inl, [], ◌∷◌, Bool-cases, refl, if◌then◌else◌,
  ◌≡◌, map, ℕ, List, Text, text_eq,
}
use aotanami.Events.Remediations.{
  upsert, resolve_context, merge, resolve_item, RemediationContext, RemediationStore, resolve_at,
  mark_merged, RemediationItem, mark_resolved, resolve_keys, lookup, get,
}
use aotanami.Events.Remediations.Lists.{has-same, IsUnique, has}
use aotanami.Events.Remediations.Index.{mentions}

merge-mentions :
    (pr_url : Text) (at : ℕ) (rk : Text) (e : Text × RemediationContext)
    → mentions rk (merge pr_url at e).1.findings ≡ mentions rk e.1.findings
merge-mentions pr_url at rk e = elim (Bool-cases (text_eq e.0 pr_url)) [
  | inl h ↦ rw h refl
  | inr h ↦ rw h refl
]

mark_merged-IsIndexed :
    (pr_url : Text) (at : ℕ) (s : RemediationStore)
    → IsIndexed s
    → IsIndexed (mark_merged pr_url at s)
unfolding mark_merged
mark_merged-IsIndexed pr_url at s h =
    map-IsIndexed (merge pr_url at) (λ e. refl) (merge-mentions pr_url at) s h

resolve_item-key :
    (rk stamp : Text) (it : RemediationItem)
    → (resolve_item rk stamp it).resource_key ≡ it.resource_key
resolve_item-key rk stamp it = elim (Bool-cases (text_eq it.resource_key rk && not it.resolved)) [
  | inl h ↦ rw h refl
  | inr h ↦ rw h refl
]

resolve_items-mentions :
    (rk stamp other : Text) (items : List RemediationItem)
    → mentions other (map (resolve_item rk stamp) items) ≡ mentions other items
resolve_items-mentions rk stamp other [] = refl
resolve_items-mentions rk stamp other (it ∷ items) =
    rw (resolve_item-key rk stamp it, resolve_items-mentions rk stamp other items) refl

resolve_at-mentions :
    (rk stamp key other : Text) (e : Text × RemediationContext)
    → mentions other (resolve_at rk stamp key e).1.findings ≡ mentions other e.1.findings
unfolding resolve_at
resolve_at-mentions rk stamp key other e = elim (Bool-cases (text_eq e.0 key)) [
  | inl h ↦ rw h (resolve_items-mentions rk stamp other e.1.findings)
  | inr h ↦ rw h refl
]

resolve_at-key :
    (rk stamp key : Text) (e : Text × RemediationContext) → (resolve_at rk stamp key e).0 ≡ e.0
unfolding resolve_at
resolve_at-key rk stamp key e = refl

resolve_keys-IsIndexed :
    (rk stamp : Text) (keys : List Text) (s : RemediationStore)
    → IsIndexed s
    → IsIndexed (record s { by_key = resolve_keys rk stamp keys s.by_key })
unfolding resolve_keys
resolve_keys-IsIndexed rk stamp [] s h = h
resolve_keys-IsIndexed rk stamp (k ∷ keys) s h =
    resolve_keys-IsIndexed rk stamp keys
      (record s { by_key = map (resolve_at rk stamp k) s.by_key })
      (map-IsIndexed (resolve_at rk stamp k) (resolve_at-key rk stamp k)
        (resolve_at-mentions rk stamp k) s h)

mark_resolved-IsIndexed :
    (rk stamp : Text) (s : RemediationStore) → IsIndexed s → IsIndexed (mark_resolved rk stamp s)
unfolding mark_resolved
mark_resolved-IsIndexed rk stamp s h = resolve_keys-IsIndexed rk stamp (s.resource_to_keys rk) s h

-- The effect of one key on what is found under another.
lookup-resolve_at :
    (rk stamp key k : Text) (m : List (Text × RemediationContext))
    → lookup k (map (resolve_at rk stamp key) m)
      ≡ (if text_eq k key then Option.map (resolve_context rk stamp) (lookup k m) else lookup k m)
unfolding lookup resolve_at
lookup-resolve_at rk stamp key k [] = ground arith
lookup-resolve_at rk stamp key k ((i, c) ∷ m) = elim (Bool-cases (text_eq i k)) [
  | inl e ↦
      let here : text_eq i key ≡ text_eq k key = ap (λ x. text_eq x key) ((text_eq_iff i k).0 e) in
      elim (Bool-cases (text_eq k key)) [
        | inl same ↦ rw (e, same) (rw (here ∙ same) refl)
        | inr apart ↦ rw (e, apart) (rw (here ∙ apart) refl)
      ]
  | inr e ↦ rw e (lookup-resolve_at rk stamp key k m)
]

lookup-resolve_keys :
    (rk stamp k : Text) (keys : List Text) (m : List (Text × RemediationContext))
    → IsUnique keys
    → lookup k (resolve_keys rk stamp keys m)
      ≡ (if has k keys then Option.map (resolve_context rk stamp) (lookup k m) else lookup k m)
unfolding resolve_keys
lookup-resolve_keys rk stamp k [] m u = refl
lookup-resolve_keys rk stamp k (j ∷ keys) m (once, u) =
    let rest = lookup-resolve_keys rk stamp k keys (map (resolve_at rk stamp j) m) u in
    let one = lookup-resolve_at rk stamp j k m in
    elim (Bool-cases (text_eq k j)) [
      | inl same ↦
          let gone : has k keys ≡ false = has-same k j keys same ∙ once in
          rw same (rw gone at rest ∙ rw same at one)
      | inr apart ↦ rw apart (
          rest
          ∙ ap (λ o. if has k keys then Option.map (resolve_context rk stamp) o else o)
              (rw apart at one))
    ]

-- A store that was just made.
abbrev pub new_store : ℕ → RemediationStore
new_store capacity = record {
  by_key = [];
  scan_to_keys = λ k. [];
  resource_to_keys = λ k. [];
  capacity = capacity;
}

-- What a store goes through.
pub data Reach (capacity : ℕ) : RemediationStore → Type 0 where
  made : Reach capacity (new_store capacity)
  upserted :
      (now : ℕ) (ctx : RemediationContext) {s : RemediationStore}
      → Reach capacity s
      → Reach capacity (upsert now ctx s)
  merged :
      (pr_url : Text) (at : ℕ) {s : RemediationStore}
      → Reach capacity s
      → Reach capacity (mark_merged pr_url at s)
  resolved :
      (rk stamp : Text) {s : RemediationStore}
      → Reach capacity s
      → Reach capacity (mark_resolved rk stamp s)

-- The index is right in every store: a key is listed under a resource, once, exactly if the context
-- of the key is there and mentions the resource, and the resource's key is not empty.
pub Reach-IsIndexed : {capacity : ℕ} {s : RemediationStore} → Reach capacity s → IsIndexed s
unfolding lookup
Reach-IsIndexed made = record { mapped = tt; unique = λ rk. tt; indexed = λ rk k. ground arith }
Reach-IsIndexed (upserted now ctx {s} r) = upsert-IsIndexed now ctx s (Reach-IsIndexed r)
Reach-IsIndexed (merged pr_url at {s} r) = mark_merged-IsIndexed pr_url at s (Reach-IsIndexed r)
Reach-IsIndexed (resolved rk stamp {s} r) = mark_resolved-IsIndexed rk stamp s (Reach-IsIndexed r)

resolved_by_index :
    (rk stamp k : Text) (s : RemediationStore)
    → IsIndexed s
    → get k (mark_resolved rk stamp s) ≡ (
        if not (text_eq rk []) && holds rk (get k s)
        then Option.map (resolve_context rk stamp) (get k s)
        else get k s)
unfolding get mark_resolved
resolved_by_index rk stamp k s h =
    lookup-resolve_keys rk stamp k (s.resource_to_keys rk) s.by_key (h.unique rk)
    ∙ ap
        (λ b.
          if b
          then Option.map (resolve_context rk stamp) (lookup k s.by_key)
          else lookup k s.by_key)
        (h.indexed rk k)

-- In every store, MarkResolved follows the index to what a search through all contexts would find.
pub mark_resolved-by_index :
    {capacity : ℕ} (rk stamp k : Text) {s : RemediationStore}
    → Reach capacity s
    → get k (mark_resolved rk stamp s) ≡ (
        if not (text_eq rk []) && holds rk (get k s)
        then Option.map (resolve_context rk stamp) (get k s)
        else get k s)
mark_resolved-by_index rk stamp k {s} r = resolved_by_index rk stamp k s (Reach-IsIndexed r)
