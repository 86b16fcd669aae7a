-- ===== src/Events/Remediations/Capacity.antt =====
-- The store does not outgrow its capacity.
use aotanami.Events.Remediations.Lists.{delete-IsMap, lookup-delete, text_eq_sym, IsMap}
use aotanami.Prelude.{
  insert_by, length-sort_by, All-sort_by, sort_by, length-take, All-take, ◌-◌, ap, ◌||◌, sym, ◌==◌,
  some, subst, ◌≤◌, ◌⊎◌, Option, ◌+◌, ◌∙◌, inr, leb, All-map, inl, refl, text_eq_refl, zero,
  Bool-cases, [], arith, take, suc, false, ◌∷◌, none, ◌≡◌, All, length, ◌≢◌, List, ℕ, Text, text_eq,
}
use aotanami.Events.Remediations.{
  age_of, remove_context, delete, remove_all, evict_if_over_capacity, remove_locked,
  RemediationStore, oldest_first, RemediationContext, lookup,
}

abbrev Entry : Type 0
Entry = Text × RemediationContext

-- A key that the map does not have.
lookup-none_apart :
    (k : Text) (m : List Entry) → lookup k m ≡ none → All (λ e. text_eq e.0 k ≡ false) m
unfolding lookup
lookup-none_apart k [] h = tt
lookup-none_apart k (e ∷ m) h = elim (Bool-cases (text_eq e.0 k)) [
  | inl same ↦ absurd (ground (arith, same, h))
  | inr apart ↦ (apart, lookup-none_apart k m (rw apart at h))
]

lookup-insert_by :
    (k : Text) (e : Entry) (m : List Entry)
    → text_eq e.0 k ≡ false
    → lookup k m ≡ none
    → lookup k (insert_by age_of e m) ≡ none
unfolding lookup insert_by
lookup-insert_by k e [] apart h = rw apart refl
lookup-insert_by k e (d ∷ m) apart h = ground (arith, apart, h, lookup-insert_by k e m apart)

insert_by-IsMap :
    (e : Entry) (m : List Entry) → lookup e.0 m ≡ none → IsMap m → IsMap (insert_by age_of e m)
unfolding lookup insert_by
insert_by-IsMap e [] h u = (refl, tt)
insert_by-IsMap e (d ∷ m) h (once, u) = elim (Bool-cases (text_eq d.0 e.0)) [
  | inl same ↦ absurd (ground (arith, same, h))
  | inr apart ↦
      let free : lookup e.0 m ≡ none = rw apart at h in
      elim (Bool-cases (leb e.1.created_at d.1.created_at)) [
        | inl older ↦ rw older (rw apart free, (once, u))
        | inr newer ↦ rw newer (
          lookup-insert_by d.0 e m (text_eq_sym e.0 d.0 ∙ apart) once,
          insert_by-IsMap e m free u,
        )
      ]
]

lookup-oldest_first :
    (k : Text) (m : List Entry) → lookup k m ≡ none → lookup k (oldest_first m) ≡ none
unfolding lookup sort_by
lookup-oldest_first k [] h = refl
lookup-oldest_first k (e ∷ m) h = elim (Bool-cases (text_eq e.0 k)) [
  | inl same ↦ absurd (ground (arith, same, h))
  | inr apart ↦
      lookup-insert_by k e (oldest_first m) apart (lookup-oldest_first k m (rw apart at h))
]

oldest_first-IsMap : (m : List Entry) → IsMap m → IsMap (oldest_first m)
unfolding sort_by
oldest_first-IsMap [] u = tt
oldest_first-IsMap (e ∷ m) (once, u) =
    insert_by-IsMap e (oldest_first m) (lookup-oldest_first e.0 m once) (oldest_first-IsMap m u)

lookup-take : (k : Text) (n : ℕ) (m : List Entry) → lookup k m ≡ none → lookup k (take n m) ≡ none
unfolding lookup
lookup-take k zero m h = refl
lookup-take k (suc n) [] h = refl
lookup-take k (suc n) (e ∷ m) h = ground (arith, h, lookup-take k n m)

take-IsMap : (n : ℕ) (m : List Entry) → IsMap m → IsMap (take n m)
take-IsMap zero m u = tt
take-IsMap (suc n) [] u = tt
take-IsMap (suc n) (e ∷ m) (once, u) = (lookup-take e.0 n m once, take-IsMap n m u)

-- The entry's key is in the map.
abbrev IsPresent : List Entry → Entry → Type 0
IsPresent m e = lookup e.0 m ≢ none

lookup-tail : (k : Text) (e : Entry) (m : List Entry) → lookup k (e ∷ m) ≡ none → lookup k m ≡ none
unfolding lookup
lookup-tail k e m h = ground (arith, h)

every-IsPresent : (m : List Entry) → IsMap m → All (IsPresent m) m
unfolding lookup
every-IsPresent [] u = tt
every-IsPresent (e ∷ m) (once, u) = (
  rw (text_eq_refl e.0) (λ h. absurd (ground (arith, h))),
  All-map (IsPresent m) (IsPresent (e ∷ m)) (λ d p h. p (lookup-tail d.0 e m h)) m
      (every-IsPresent m u),
)

length-delete :
    (k : Text) (m : List Entry) → lookup k m ≢ none → suc (length (delete k m)) ≡ length m
unfolding lookup delete
length-delete k [] p = absurd (p refl)
length-delete k (e ∷ m) p = elim (Bool-cases (text_eq e.0 k)) [
  | inl same ↦ rw same refl
  | inr apart ↦ rw apart (omega (arith, length-delete k m (rw apart at p)))
]

-- Removing a context takes its entry out, and no other.
remove_context-by_key :
    (key : Text) (s : RemediationStore) (o : Option RemediationContext)
    → o ≢ none
    → (remove_context key s o).by_key ≡ delete key s.by_key
remove_context-by_key key s none p = absurd (p refl)
remove_context-by_key key s (some c) p = refl

remove_locked-by_key :
    (key : Text) (s : RemediationStore)
    → lookup key s.by_key ≢ none
    → (remove_locked key s).by_key ≡ delete key s.by_key
unfolding remove_locked
remove_locked-by_key key s p = remove_context-by_key key s (lookup key s.by_key) p

delete-IsPresent :
    (k : Text) (m : List Entry) (e : Entry)
    → IsMap m
    → text_eq e.0 k ≡ false
    → IsPresent m e
    → IsPresent (delete k m) e
delete-IsPresent k m e u apart p h =
    p (ground (arith, lookup-delete e.0 k m u, text_eq_sym e.0 k, h))

All-and :
    (P Q R : Entry → Type 0)
    → ((e : Entry) → P e → Q e → R e)
    → (m : List Entry) → All P m
    → All Q m
    → All R m
All-and P Q R f [] h k = tt
All-and P Q R f (e ∷ m) (p, h) (q, k) = (f e p q, All-and P Q R f m h k)

length-remove_all :
    (es : List Entry) (s : RemediationStore)
    → IsMap es
    → IsMap s.by_key
    → All (IsPresent s.by_key) es
    → length (remove_all es s).by_key + length es ≡ length s.by_key
unfolding remove_all
length-remove_all [] s v u p = omega arith
length-remove_all (e ∷ es) s (once, v) u (here, p) =
    let m = s.by_key in
    let s' = remove_locked e.0 s in
    let same : s'.by_key ≡ delete e.0 m = remove_locked-by_key e.0 s here in
    let present : All (IsPresent (delete e.0 m)) es =
      All-and (λ d. text_eq d.0 e.0 ≡ false) (IsPresent m) (IsPresent (delete e.0 m))
        (λ d apart there. delete-IsPresent e.0 m d u apart there) es (lookup-none_apart e.0 es once)
        p in
    let rest =
      length-remove_all es s' v (subst IsMap (sym same) (delete-IsMap e.0 m u))
        (subst (λ x. All (IsPresent x) es) (sym same) present) in
    omega (arith, rest, ap (length {A = Entry}) same, length-delete e.0 m here)

pub evict_capacity :
    (s : RemediationStore)
    → IsMap s.by_key
    → (s.capacity ≡ 0) ⊎ (length (evict_if_over_capacity s).by_key ≤ s.capacity)
unfolding evict_if_over_capacity
evict_capacity s u = elim (Bool-cases (s.capacity == 0 || leb (length s.by_key) s.capacity)) [
  | inl e ↦ rw e (ground (arith, e))
  | inr e ↦
      let sorted = oldest_first s.by_key in
      let n = length s.by_key - s.capacity in
      rw e (
        inr (
          omega (
            arith,
            length-remove_all (take n sorted) s
                (take-IsMap n sorted (oldest_first-IsMap s.by_key u)) u
                (All-take (IsPresent s.by_key) n sorted
                  (All-sort_by age_of (IsPresent s.by_key) s.by_key (every-IsPresent s.by_key u))),
            length-take n sorted,
            length-sort_by age_of s.by_key,
          )))
]
