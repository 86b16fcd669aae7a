-- ===== src/SecurityPolicy/Model.antt =====
-- api/v1alpha1/securitypolicy_types.go and notificationchannel_types.go: the fields that the controller
-- reads and writes.
use aotanami.Conditions.{Condition}
use aotanami.Prelude.{Bool, codes, ◌++◌, Text, List, Option, ℕ}

-- metav1.LabelSelectorRequirement
pub record Requirement : Type 0 where
  pub key : Text
  pub operator : Text
  pub values : List Text

-- metav1.LabelSelector
pub record LabelSelector : Type 0 where
  pub match_labels : List (Text × Text)
  pub match_expressions : List Requirement

-- PolicyMatch
pub record PolicyMatch : Type 0 where
  pub namespaces : List Text
  pub exclude_namespaces : List Text
  pub label_selector : Option LabelSelector
  pub resource_kinds : List Text

-- SecurityRule
pub record SecurityRule : Type 0 where
  pub name : Text
  pub type : Text
  pub enforce : Bool
  pub params : List (Text × Text)

-- SecurityPolicySpec
pub record SecurityPolicySpec : Type 0 where
  pub severity : Text
  pub match : PolicyMatch
  pub rules : List SecurityRule
  pub auto_remediate : Bool
  pub schedule : Text

-- SecurityPolicyStatus; `none` for a LastEvaluated that is nil.
pub record SecurityPolicyStatus : Type 0 where
  pub phase : Text
  pub conditions : List Condition
  pub violation_count : ℕ
  pub last_evaluated : Option ℕ
  pub observed_generation : ℕ

pub record SecurityPolicy : Type 0 where
  pub name : Text
  pub namespace : Text
  pub generation : ℕ
  pub spec : SecurityPolicySpec
  pub status : SecurityPolicyStatus

-- NotificationChannel
pub record NotificationChannel : Type 0 where
  pub name : Text
  pub namespace : Text
  pub type : Text
  pub credential_secret : Text
  pub severity_filter : Text

-- What a call returns: a value, or an error with its text.
pub data Attempt (A : Type 0) : Type 0 where
  ok : A → Attempt A
  err : Text → Attempt A

infixl 5 ◌>>=◌
abbrev pub ◌>>=◌ : {A B : Type 0} → Attempt A → (A → Attempt B) → Attempt B
ok a >>= f = f a
err e >>= f = err e

-- fmt.Errorf("…: %w", err) around the error of a step.
abbrev pub wrap : {A : Type 0} → Text → Attempt A → Attempt A
wrap prefix (ok a) = ok a
wrap prefix (err e) = err (prefix ++ codes ": " ++ e)
