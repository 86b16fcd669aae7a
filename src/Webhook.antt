-- ===== src/Webhook.antt =====
-- internal/webhook/v1alpha1/securitypolicy_webhook.go: what the API server asks before it stores a
-- SecurityPolicy. An error is its field and value; the paths and texts of the errors are left out.
pub mod Admission
mod Tests
use aotanami.Prelude.{
  length, leb, map, ◌&&◌, true, ◌+◌, not, [], false, ◌++◌, ◌||◌, ◌∷◌, ◌==◌, any, text_eq, codes, ℕ,
  Bool, when, List, if◌then◌else◌, Text,
}
use aotanami.SecurityPolicy.Model.{SecurityPolicySpec, SecurityRule}

-- The errors, those of a rule with its index.
pub data FieldError : Type 0 where
  invalid_severity : Text → FieldError
  rules_required : FieldError
  name_required : ℕ → FieldError
  duplicate_name : ℕ → Text → FieldError
  invalid_type : ℕ → Text → FieldError
  invalid_schedule : Text → FieldError

pub record Review : Type 0 where
  pub warnings : List Text
  pub errors : List FieldError

-- validRuleTypes
abbrev pub valid_rule_types : List Text
valid_rule_types =
    codes "container-security-context"
    ∷ codes "rbac-audit"
    ∷ codes "image-vulnerability"
    ∷ codes "network-policy"
    ∷ codes "pod-security"
    ∷ codes "secrets-exposure"
    ∷ codes "resource-limits"
    ∷ codes "privilege-escalation"
    ∷ []

-- validSeverities
abbrev pub valid_severities : List Text
valid_severities =
    codes "critical" ∷ codes "high" ∷ codes "medium" ∷ codes "low" ∷ codes "info" ∷ []

-- The test of a key in a map of Booleans.
pub is_key : Text → List Text → Bool
is_key t keys = any (text_eq t) keys

-- The error about the name of a rule; `seen` is ruleNames.
abbrev pub name_errors : ℕ → SecurityRule → List Text → List FieldError
name_errors i rule seen =
    if text_eq rule.name []
    then name_required i ∷ []
    else when (is_key rule.name seen) (duplicate_name i rule.name)

-- The loop over the rules.
pub rule_errors : ℕ → List SecurityRule → List Text → List FieldError
unfolding is_key
rule_errors i [] seen = []
rule_errors i (rule ∷ rules) seen =
    name_errors i rule seen
    ++ (when (not (is_key rule.type valid_rule_types)) (invalid_type i rule.type)
        ++ rule_errors (i + 1) rules (rule.name ∷ seen))

-- len(strings.Fields(s)) of an ASCII text; `inside` tells that a field has begun.
abbrev is_space : ℕ → Bool
is_space c = c == 32 || leb 9 c && leb c 13

abbrev pub field_count : Bool → Text → ℕ
field_count inside [] = 0
field_count inside (c ∷ s) =
    let outer = field_count false s in
    let inner = field_count true s in
    if is_space c then outer else if inside then inner else inner + 1

-- validate
unfoldable pub validate : SecurityPolicySpec → Review
unfolding is_key rule_errors
validate spec = record {
  warnings = when spec.auto_remediate (
      codes
        "autoRemediate is enabled but auto-remediation requires a GitOpsRepository to be onboarded");
  errors =
      when (not (text_eq spec.severity []) && not (is_key spec.severity valid_severities))
        (invalid_severity spec.severity)
      ++ (when (length spec.rules == 0) rules_required
          ++ (rule_errors 0 spec.rules []
              ++ when (not (text_eq spec.schedule []) && not (field_count false spec.schedule == 5))
                  (invalid_schedule spec.schedule)));
}

-- Default
unfoldable pub default : SecurityPolicySpec → SecurityPolicySpec
default spec = record spec {
  severity = if text_eq spec.severity [] then codes "medium" else spec.severity;
  rules =
      map (λ rule. if not rule.enforce then record rule { enforce = true } else rule) spec.rules;
}
