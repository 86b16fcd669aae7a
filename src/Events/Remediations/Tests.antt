-- ===== src/Events/Remediations/Tests.antt =====
-- A store for one remediation.
use aotanami.Events.Remediations.Effect.{mark_resolved_lem, IsEffect}
use aotanami.Events.Remediations.Bounded.{store_is_bounded}
use aotanami.Prelude.{
  insert_by, sort_by, arith, false, refl, [], ◌≤◌, none, ◌∷◌, ℕ, ◌≡◌, codes, length, map, Text,
  text_eq,
}
use aotanami.Events.Remediations.{
  remove_locked, lookup, remove_all, delete, at_resources, remove_string, append_unique,
  RemediationContext, mark_resolved, RemediationStore, get, upsert,
}
use aotanami.Events.Remediations.Resolved.{new_store, Reach, made, upserted}

abbrev gateway : Text
gateway = codes "Pod/prod/gateway"

abbrev proposal : Text → ℕ → RemediationContext
proposal url at = record {
  key = [];
  scan_ref = codes "nightly";
  namespace = codes "prod";
  repo = [];
  pr_url = url;
  summary = [];
  created_at = at;
  merged_at = none;
  findings =
      record {
        resource_key = gateway;
        resource = [];
        rule = [];
        severity = [];
        title = [];
        resolved = false;
        resolved_at = [];
      }
      ∷ [];
  diff = [];
  files_changed = [];
  resolved_keys = [];
}

abbrev store : RemediationStore
store = upsert 7 (proposal (codes "pr/2") 5) (upsert 6 (proposal (codes "pr/1") 3) (new_store 1))

store-Reach : Reach 1 store
store-Reach = upserted 7 (proposal (codes "pr/2") 5) (upserted 6 (proposal (codes "pr/1") 3) made)

store_is_bounded_example : length store.by_key ≤ 1
store_is_bounded_example = store_is_bounded store-Reach (omega arith)

mark_resolved_lem_example :
    IsEffect gateway
      (codes "now")
      (get (codes "pr/2") store)
      (get (codes "pr/2") (mark_resolved gateway (codes "now") store))
mark_resolved_lem_example = mark_resolved_lem gateway (codes "now") (codes "pr/2") store-Reach

-- The older one was evicted, and the index follows.
newest_stays : map (λ e. e.0) store.by_key ≡ codes "pr/2" ∷ []
unfolding upsert text_eq remove_locked lookup remove_all sort_by insert_by delete
newest_stays = refl

index_follows : store.resource_to_keys gateway ≡ codes "pr/2" ∷ []
unfolding upsert text_eq remove_locked lookup remove_all sort_by insert_by at_resources
    remove_string append_unique
index_follows = refl

-- A context that is older than what fills the store is evicted as soon as it is stored.
late_is_lost : get (codes "pr/3") (upsert 9 (proposal (codes "pr/3") 1) store) ≡ none
unfolding get upsert text_eq remove_locked remove_all sort_by insert_by delete
late_is_lost = refl
