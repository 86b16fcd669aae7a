-- ===== src/Events/Remediations.antt =====
-- internal/events/remediations.go: the store of live remediations, a map by pull request with two
-- indexes. A time is a number, 0 for the zero time. The map is the list of its entries in the order
-- of `range`; an index is a function, with the empty list for a missing key, as its readers have it.
pub mod Lists
pub mod Index
pub mod Consistent
pub mod Resolved
pub mod Effect
pub mod Capacity
pub mod Bounded
mod Tests
use aotanami.Prelude.{
  sort_by, ◌-◌, true, take, not, length, ◌||◌, leb, [], ◌&&◌, some, ◌==◌, text_eq, ◌∷◌, none, any,
  Bool, List, Option, if◌then◌else◌, ◌++◌, map, ℕ, Text,
}

-- RemediationItem
pub record RemediationItem : Type 0 where
  pub resource_key : Text
  pub resource : Text
  pub rule : Text
  pub severity : Text
  pub title : Text
  pub resolved : Bool
  pub resolved_at : Text

-- RemediationContext; its ResolvedKeys is a set.
pub record RemediationContext : Type 0 where
  pub key : Text
  pub scan_ref : Text
  pub namespace : Text
  pub repo : Text
  pub pr_url : Text
  pub summary : Text
  pub created_at : ℕ
  pub merged_at : Option ℕ
  pub findings : List RemediationItem
  pub diff : Text
  pub files_changed : List Text
  pub resolved_keys : List Text

-- remediationStore; a capacity that is not positive is 0.
pub record RemediationStore : Type 0 where
  pub by_key : List (Text × RemediationContext)
  pub scan_to_keys : Text → List Text
  pub resource_to_keys : Text → List Text
  pub capacity : ℕ

-- appendUnique
pub append_unique : List Text → Text → List Text
append_unique keys v = if any (text_eq v) keys then keys else keys ++ v ∷ []

-- removeString
pub remove_string : List Text → Text → List Text
remove_string [] v = []
remove_string (s ∷ keys) v =
    let rest = remove_string keys v in if text_eq s v then keys else s ∷ rest

abbrev pub update_index : (Text → List Text) → Text → List Text → Text → List Text
update_index index k keys j = if text_eq k j then keys else index j

-- The read, the write and the removal of an entry.
pub lookup : Text → List (Text × RemediationContext) → Option RemediationContext
lookup k [] = none
lookup k ((j, c) ∷ m) = let rest = lookup k m in if text_eq j k then some c else rest

pub delete : Text → List (Text × RemediationContext) → List (Text × RemediationContext)
delete k [] = []
delete k ((j, c) ∷ m) = let rest = delete k m in if text_eq j k then m else (j, c) ∷ rest

-- The indexes of a context under an operation on lists of keys, add or remove.
abbrev pub at_scan : (List Text → List Text) → Text → (Text → List Text) → Text → List Text
at_scan f scan_ref index =
    if text_eq scan_ref [] then index else update_index index scan_ref (f (index scan_ref))

pub at_resources :
    (List Text → List Text) → List RemediationItem → (Text → List Text) → Text → List Text
at_resources f [] index = index
at_resources f (it ∷ items) index = at_resources f items (
    if text_eq it.resource_key []
    then index
    else update_index index it.resource_key (f (index it.resource_key)))

abbrev pub remove_context : Text → RemediationStore → Option RemediationContext → RemediationStore
remove_context key s none = s
remove_context key s (some ctx) = record s {
  by_key = delete key s.by_key;
  scan_to_keys = at_scan (λ keys. remove_string keys key) ctx.scan_ref s.scan_to_keys;
  resource_to_keys = at_resources (λ keys. remove_string keys key) ctx.findings s.resource_to_keys;
}

-- removeLocked
pub remove_locked : Text → RemediationStore → RemediationStore
remove_locked key s = remove_context key s (lookup key s.by_key)

-- sort.Slice of the entries by CreatedAt.
abbrev pub age_of : Text × RemediationContext → ℕ
age_of e = e.1.created_at

abbrev pub oldest_first : List (Text × RemediationContext) → List (Text × RemediationContext)
oldest_first m = sort_by age_of m

-- The loop over the oldest keys.
pub remove_all : List (Text × RemediationContext) → RemediationStore → RemediationStore
remove_all [] s = s
remove_all (e ∷ m) s = remove_all m (remove_locked e.0 s)

-- evictIfOverCapacity
pub evict_if_over_capacity : RemediationStore → RemediationStore
evict_if_over_capacity s =
    if s.capacity == 0 || leb (length s.by_key) s.capacity
    then s
    else remove_all (take (length s.by_key - s.capacity) (oldest_first s.by_key)) s

-- The context that Upsert stores.
abbrev pub stored_context : ℕ → RemediationContext → RemediationContext
stored_context now ctx = record ctx {
  key = ctx.pr_url;
  created_at = if ctx.created_at == 0 then now else ctx.created_at;
}

-- Upsert up to the eviction.
pub put : RemediationContext → RemediationStore → RemediationStore
put ctx s =
    let s' = remove_locked ctx.key s in
    record s' {
      by_key = s'.by_key ++ (ctx.key, ctx) ∷ [];
      scan_to_keys = at_scan (λ keys. append_unique keys ctx.key) ctx.scan_ref s'.scan_to_keys;
      resource_to_keys =
          at_resources (λ keys. append_unique keys ctx.key) ctx.findings s'.resource_to_keys;
    }

-- Upsert
unfoldable pub upsert : ℕ → RemediationContext → RemediationStore → RemediationStore
unfolding put evict_if_over_capacity
upsert now ctx s =
    if text_eq ctx.pr_url [] then s else evict_if_over_capacity (put (stored_context now ctx) s)

-- Get
unfoldable pub get : Text → RemediationStore → Option RemediationContext
unfolding lookup
get key s = lookup key s.by_key

-- MarkMerged
abbrev pub merge : Text → ℕ → Text × RemediationContext → Text × RemediationContext
merge pr_url at (k, c) = (k, if text_eq k pr_url then record c { merged_at = some at } else c)

unfoldable pub mark_merged : Text → ℕ → RemediationStore → RemediationStore
mark_merged pr_url at s = record s { by_key = map (merge pr_url at) s.by_key }

-- The body of the loops of MarkResolved; `stamp` is the time in RFC 3339.
abbrev pub resolve_item : Text → Text → RemediationItem → RemediationItem
resolve_item resource_key stamp it =
    if text_eq it.resource_key resource_key && not it.resolved
    then record it { resolved = true; resolved_at = stamp }
    else it

abbrev pub resolve_context : Text → Text → RemediationContext → RemediationContext
resolve_context resource_key stamp c = record c {
  resolved_keys = append_unique c.resolved_keys resource_key;
  findings = map (resolve_item resource_key stamp) c.findings;
}

-- The write through the pointer that `byKey[k]` holds.
pub resolve_at : Text → Text → Text → Text × RemediationContext → Text × RemediationContext
resolve_at resource_key stamp key (k, c) =
    (k, if text_eq k key then resolve_context resource_key stamp c else c)

pub resolve_keys :
    Text → Text → List Text → List (Text × RemediationContext) → List (Text × RemediationContext)
resolve_keys resource_key stamp [] m = m
resolve_keys resource_key stamp (k ∷ keys) m =
    resolve_keys resource_key stamp keys (map (resolve_at resource_key stamp k) m)

-- MarkResolved
unfoldable pub mark_resolved : Text → Text → RemediationStore → RemediationStore
unfolding resolve_keys append_unique
mark_resolved resource_key stamp s = record s {
  by_key = resolve_keys resource_key stamp (s.resource_to_keys resource_key) s.by_key;
}
