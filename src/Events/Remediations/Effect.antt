-- ===== src/Events/Remediations/Effect.antt =====
-- What MarkResolved does to the contexts that Get finds.
use aotanami.Events.Remediations.Index.{mentions}
use aotanami.Events.Remediations.Consistent.{holds}
use aotanami.Events.Remediations.Lists.{has-append_unique, has}
use aotanami.Events.Remediations.{
  mark_resolved, get, append_unique, resolve_context, resolve_item, RemediationStore,
  RemediationItem, RemediationContext,
}
use aotanami.Prelude.{
  sym, subst, arith, refl, text_eq_iff, inr, ◌⊎◌, inl, Any, any_iff, ◌&&◌, true, text_eq, ◌↔◌,
  false, some, map-Pairwise, Bool-cases, [], Elem, none, Pairwise, ◌≡◌, not, if◌then◌else◌, ◌≢◌,
  Option, List, ℕ, Text,
}
use mathlib.Core.Option
use aotanami.Events.Remediations.Resolved.{mark_resolved-by_index, Reach}

-- An item after MarkResolved of a resource: an open one of the resource is resolved.
pub data IsItemAfter (rk stamp : Text) (it it' : RemediationItem) : Type 0 where
  item_resolved :
      it.resource_key ≡ rk
      → it.resolved ≡ false
      → it' ≡ record it { resolved = true; resolved_at = stamp }
      → IsItemAfter rk stamp it it'
  item_kept : (it.resource_key ≢ rk) ⊎ (it.resolved ≡ true) → it' ≡ it → IsItemAfter rk stamp it it'

-- A context that mentions the resource, after it: its items, its resolved keys, and nothing else.
pub record IsResolved (rk stamp : Text) (c c' : RemediationContext) : Type 0 where
  pub items : Pairwise (IsItemAfter rk stamp) c.findings c'.findings
  pub keys : (k : Text) → Elem k c'.resolved_keys ↔ ((k ≡ rk) ⊎ Elem k c.resolved_keys)
  pub rest : c' ≡ record c { findings = c'.findings; resolved_keys = c'.resolved_keys }

abbrev pub Mentions : Text → RemediationContext → Type 0
Mentions rk c = (rk ≢ []) × Any (λ it. it.resource_key ≡ rk) c.findings

-- What Get finds before and after.
pub data IsEffect (rk stamp : Text)
    : Option RemediationContext → Option RemediationContext → Type 0 where
  nothing_there : IsEffect rk stamp none none
  concerned :
      {c c' : RemediationContext}
      → Mentions rk c
      → IsResolved rk stamp c c'
      → IsEffect rk stamp (some c) (some c')
  spared : {c : RemediationContext} → ¬ Mentions rk c → IsEffect rk stamp (some c) (some c)

resolve_item-IsItemAfter :
    (rk stamp : Text) (it : RemediationItem) → IsItemAfter rk stamp it (resolve_item rk stamp it)
resolve_item-IsItemAfter rk stamp it = elim (Bool-cases (text_eq it.resource_key rk)) [
  | inl e ↦ elim (Bool-cases it.resolved) [
    | inl r ↦ item_kept (inr r) (simp (e, r) refl)
    | inr r ↦ item_resolved ((text_eq_iff it.resource_key rk).0 e) r (simp (e, r) refl)
  ]
  | inr e ↦
      item_kept (inl (λ k. ground (arith, e, (text_eq_iff it.resource_key rk).1 k))) (simp e refl)
]

has_iff : (k : Text) (keys : List Text) → (has k keys ≡ true) ↔ Elem k keys
has_iff k keys = any_iff (text_eq k) (λ x. k ≡ x) (text_eq_iff k) keys

append_unique_iff :
    (rk k : Text) (keys : List Text) → Elem k (append_unique keys rk) ↔ ((k ≡ rk) ⊎ Elem k keys)
append_unique_iff rk k keys =
    let same = has-append_unique k rk keys in
    let (into, out_of) = has_iff k (append_unique keys rk) in
    let (before, back) = has_iff k keys in
    let (equal, is_equal) = text_eq_iff k rk in
    (
      (λ m. elim (Bool-cases (text_eq k rk)) [
        | inl e ↦ inl (equal e)
        | inr e ↦ inr (before (ground (arith, e, same, out_of m)))
      ]),
      elim [
        | inl e ↦ into (ground (arith, same, is_equal e))
        | inr m ↦ into (ground (arith, same, back m))
      ],
    )

resolve_context-IsResolved :
    (rk stamp : Text) (c : RemediationContext) → IsResolved rk stamp c (resolve_context rk stamp c)
resolve_context-IsResolved rk stamp c = record {
  items =
      map-Pairwise (IsItemAfter rk stamp) (resolve_item rk stamp)
        (resolve_item-IsItemAfter rk stamp) c.findings;
  keys = λ k. append_unique_iff rk k c.resolved_keys;
  rest = refl;
}

mentions_iff :
    (rk : Text) (c : RemediationContext)
    → ((not (text_eq rk []) && mentions rk c.findings) ≡ true) ↔ Mentions rk c
mentions_iff rk c =
    let (some_item, is_item) =
      any_iff (λ it. text_eq it.resource_key rk) (λ it. it.resource_key ≡ rk)
        (λ it. text_eq_iff it.resource_key rk) c.findings in
    let (empty, is_empty) = text_eq_iff rk [] in
    elim (Bool-cases (text_eq rk [])) [
      | inl e ↦ rw e ((λ h. absurd (ground (arith, h))), λ h. absurd (h.0 (empty e)))
      | inr e ↦ rw e ((λ h. ((λ k. ground (arith, e, is_empty k)), some_item h)), λ h. is_item h.1)
    ]

by_index-IsEffect :
    (rk stamp : Text) (o : Option RemediationContext)
    → IsEffect rk stamp o
        (if not (text_eq rk []) && holds rk o then Option.map (resolve_context rk stamp) o else o)
by_index-IsEffect rk stamp none = elim (Bool-cases (text_eq rk [])) [
  | inl e ↦ rw e nothing_there
  | inr e ↦ rw e nothing_there
]
by_index-IsEffect rk stamp (some c) =
    elim (Bool-cases (not (text_eq rk []) && mentions rk c.findings)) [
      | inl e ↦ rw e (concerned ((mentions_iff rk c).0 e) (resolve_context-IsResolved rk stamp c))
      | inr e ↦ rw e (spared (λ m. ground (arith, e, (mentions_iff rk c).1 m)))
    ]

-- In every store that Upsert, MarkMerged and MarkResolved make of a new one, after MarkResolved of
-- a resource whose key is not empty, Get finds each context that mentions the resource with its
-- open items of that resource resolved at the given time, the resource among its resolved keys, and
-- nothing else changed; and every other context as it was. If the key is empty, all are as they
-- were.
pub mark_resolved_lem :
    {capacity : ℕ} (rk stamp k : Text) {s : RemediationStore}
    → Reach capacity s
    → IsEffect rk stamp (get k s) (get k (mark_resolved rk stamp s))
mark_resolved_lem rk stamp k {s} r =
    subst (IsEffect rk stamp (get k s)) (sym (mark_resolved-by_index rk stamp k r))
      (by_index-IsEffect rk stamp (get k s))
