-- ===== src/Events/Remediations/Bounded.antt =====
-- In every store there are at most as many contexts as its capacity allows.
use aotanami.Events.Remediations.Capacity.{evict_capacity}
use aotanami.Events.Remediations.Consistent.{put-IsIndexed, IsIndexed}
use aotanami.Prelude.{
  subst, ◌-◌, take, leb, inr, ◌||◌, refl, inl, none, [], ◌∙◌, ◌≤◌, ◌==◌, some, map, arith, ◌⊎◌, ◌∷◌,
  length, Bool-cases, List, ◌≡◌, Option, ◌<◌, ℕ, Text, text_eq,
}
use aotanami.Events.Remediations.{
  oldest_first, stored_context, resolve_at, merge, remove_context, mark_resolved,
  evict_if_over_capacity, upsert, put, remove_all, RemediationContext, mark_merged, resolve_keys,
  remove_locked, RemediationStore, lookup,
}
use aotanami.Events.Remediations.Resolved.{Reach-IsIndexed, Reach, made, upserted, merged, resolved}

length-map-entries :
    (g : Text × RemediationContext → Text × RemediationContext)
    (m : List (Text × RemediationContext))
    → length (map g m) ≡ length m
length-map-entries g [] = refl
length-map-entries g (e ∷ m) = omega (arith, length-map-entries g m)

length-resolve_keys :
    (rk stamp : Text) (keys : List Text) (m : List (Text × RemediationContext))
    → length (resolve_keys rk stamp keys m) ≡ length m
unfolding resolve_keys
length-resolve_keys rk stamp [] m = refl
length-resolve_keys rk stamp (k ∷ keys) m =
    length-resolve_keys rk stamp keys (map (resolve_at rk stamp k) m)
    ∙ length-map-entries (resolve_at rk stamp k) m

-- The capacity never changes.
remove_context-capacity :
    (key : Text) (s : RemediationStore) (o : Option RemediationContext)
    → (remove_context key s o).capacity ≡ s.capacity
remove_context-capacity key s none = refl
remove_context-capacity key s (some c) = refl

remove_locked-capacity :
    (key : Text) (s : RemediationStore) → (remove_locked key s).capacity ≡ s.capacity
unfolding remove_locked
remove_locked-capacity key s = remove_context-capacity key s (lookup key s.by_key)

remove_all-capacity :
    (es : List (Text × RemediationContext)) (s : RemediationStore)
    → (remove_all es s).capacity ≡ s.capacity
unfolding remove_all
remove_all-capacity [] s = refl
remove_all-capacity (e ∷ es) s =
    remove_all-capacity es (remove_locked e.0 s) ∙ remove_locked-capacity e.0 s

put-capacity : (ctx : RemediationContext) (s : RemediationStore) → (put ctx s).capacity ≡ s.capacity
unfolding put
put-capacity ctx s = remove_locked-capacity ctx.key s

evict-capacity : (s : RemediationStore) → (evict_if_over_capacity s).capacity ≡ s.capacity
unfolding evict_if_over_capacity
evict-capacity s = elim (Bool-cases (s.capacity == 0 || leb (length s.by_key) s.capacity)) [
  | inl e ↦ rw e refl
  | inr e ↦
      rw e (remove_all-capacity (take (length s.by_key - s.capacity) (oldest_first s.by_key)) s)
]

-- A store within its capacity.
abbrev IsWithin : ℕ → RemediationStore → Type 0
IsWithin capacity s = (s.capacity ≡ capacity) × ((capacity ≡ 0) ⊎ (length s.by_key ≤ capacity))

upsert-IsWithin :
    (capacity now : ℕ) (ctx : RemediationContext) (s : RemediationStore)
    → IsIndexed s
    → IsWithin capacity s
    → IsWithin capacity (upsert now ctx s)
unfolding upsert
upsert-IsWithin capacity now ctx s h w = elim (Bool-cases (text_eq ctx.pr_url [])) [
  | inl e ↦ rw e w
  | inr e ↦
      let s' = put (stored_context now ctx) s in
      let bound = evict_capacity s' (put-IsIndexed (stored_context now ctx) s h).mapped in
      let same : s'.capacity ≡ capacity = put-capacity (stored_context now ctx) s ∙ w.0 in
      rw e (
        evict-capacity s' ∙ same,
        subst (λ c. (c ≡ 0) ⊎ (length (evict_if_over_capacity s').by_key ≤ c)) same bound,
      )
]

Reach-IsWithin : {capacity : ℕ} {s : RemediationStore} → Reach capacity s → IsWithin capacity s
unfolding mark_merged mark_resolved
Reach-IsWithin made = (refl, ground arith)
Reach-IsWithin {capacity} (upserted now ctx {s} r) =
    upsert-IsWithin capacity now ctx s (Reach-IsIndexed r) (Reach-IsWithin r)
Reach-IsWithin (merged pr_url at {s} r) =
    let (same, bound) = Reach-IsWithin r in
    (same, ground (arith, bound, length-map-entries (merge pr_url at) s.by_key))
Reach-IsWithin (resolved rk stamp {s} r) =
    let (same, bound) = Reach-IsWithin r in
    (same, ground (arith, bound, length-resolve_keys rk stamp (s.resource_to_keys rk) s.by_key))

-- Whatever a store with a capacity goes through, it holds at most that many contexts.
pub store_is_bounded :
    {capacity : ℕ} {s : RemediationStore}
    → Reach capacity s
    → 0 < capacity
    → length s.by_key ≤ capacity
store_is_bounded r positive = let bound = (Reach-IsWithin r).1 in ground (arith, bound)
