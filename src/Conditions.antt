-- ===== src/Conditions.antt =====
-- internal/conditions/conditions.go: the conditions of a status, a slice that holds one per type.
pub mod Upsert
mod Tests
use aotanami.Prelude.{
  [], not, text_eq, some, false, none, true, ◌∷◌, filter, if◌then◌else◌, Option, Text, Bool, List,
  ℕ,
}

-- metav1.ConditionStatus
pub data ConditionStatus : Type 0 where
  condition_true condition_false condition_unknown : ConditionStatus

-- metav1.Condition
pub record Condition : Type 0 where
  pub type : Text
  pub status : ConditionStatus
  pub observed_generation : ℕ
  pub last_transition_time : ℕ
  pub reason : Text
  pub message : Text

pub same_status : ConditionStatus → ConditionStatus → Bool
same_status condition_true condition_true = true
same_status condition_false condition_false = true
same_status condition_unknown condition_unknown = true
same_status _ _ = false

module _ (now : ℕ) (type : Text) (status : ConditionStatus) (reason message : Text)
    (generation : ℕ) where
  -- The condition that Set appends.
  abbrev pub appended : Condition
  appended = record {
    type = type;
    status = status;
    observed_generation = generation;
    last_transition_time = now;
    reason = reason;
    message = message;
  }

  -- The condition that Set updates.
  abbrev pub updated : Condition → Condition
  updated c = record c {
    status = status;
    observed_generation = generation;
    last_transition_time = if same_status c.status status then c.last_transition_time else now;
    reason = reason;
    message = message;
  }

  -- Set
  unfoldable pub set : List Condition → List Condition
  set [] = appended ∷ []
  set (c ∷ cs) = let rest = set cs in if text_eq c.type type then updated c ∷ cs else c ∷ rest

-- Get
unfoldable pub get : List Condition → Text → Option Condition
get [] type = none
get (c ∷ cs) type = let rest = get cs type in if text_eq c.type type then some c else rest

abbrev has_status : ConditionStatus → Option Condition → Bool
has_status status none = false
has_status status (some c) = same_status c.status status

-- IsTrue
pub is_true : List Condition → Text → Bool
unfolding get
is_true cs type = has_status condition_true (get cs type)

-- IsFalse
pub is_false : List Condition → Text → Bool
unfolding get
is_false cs type = has_status condition_false (get cs type)

-- Remove
unfoldable pub remove : List Condition → Text → List Condition
remove cs type = filter (λ c. not (text_eq c.type type)) cs

abbrev differs : ConditionStatus → Option Condition → Bool
differs status none = true
differs status (some c) = not (same_status c.status status)

-- HasChanged
pub has_changed : List Condition → Text → ConditionStatus → Bool
unfolding get
has_changed cs type status = differs status (get cs type)
