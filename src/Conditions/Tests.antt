-- ===== src/Conditions/Tests.antt =====
-- Ready becomes true.
use aotanami.Conditions.Upsert.{IsWritten, set_lem}
use aotanami.Prelude.{◌≢◌, ◌⊎◌, some, ◌≡◌, ◌∷◌, Text, [], codes}
use aotanami.Conditions.{Condition, condition_true, condition_unknown, get, set}

abbrev ready : Text
ready = codes "Ready"

abbrev progressing : Condition
progressing = record {
  type = ready;
  status = condition_unknown;
  observed_generation = 1;
  last_transition_time = 5;
  reason = codes "Progressing";
  message = [];
}

set_lem_example :
    let before = get (progressing ∷ []) ready in
    let after = get (set 9 ready condition_true [] [] 2 (progressing ∷ [])) ready in
    ((ready ≡ ready)
      × ((c : Condition) × (after ≡ some c) × IsWritten 9 ready condition_true [] [] 2 before c))
    ⊎ ((ready ≢ ready) × (after ≡ before))
set_lem_example = set_lem 9 ready condition_true [] [] 2 (progressing ∷ []) ready
