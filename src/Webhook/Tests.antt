-- ===== src/Webhook/Tests.antt =====
-- A policy with a rule that is not enforced, and one with three mistakes.
use aotanami.Webhook.{
  validate, default, invalid_type, duplicate_name, invalid_schedule, rule_errors, is_key,
}
use aotanami.Webhook.Admission.{enforced, IsAdmissible, admitted_iff}
use aotanami.Prelude.{map, ◌⊎◌, ◌≡◌, ◌≢◌, ◌↔◌, refl, [], ◌∷◌, codes, none, false, Text, text_eq}
use aotanami.SecurityPolicy.Model.{SecurityPolicySpec, SecurityRule}

abbrev advisory : Text → Text → SecurityRule
advisory name type = record { name = name; type = type; enforce = false; params = [] }

abbrev hourly : SecurityPolicySpec
hourly = record {
  severity = [];
  match = record {
    namespaces = [];
    exclude_namespaces = [];
    label_selector = none;
    resource_kinds = [];
  };
  rules = advisory (codes "limits") (codes "resource-limits") ∷ [];
  auto_remediate = false;
  schedule = codes "0 * * * *";
}

admitted_iff_example :
    (((validate hourly).errors ≡ []) ↔ IsAdmissible hourly)
    × (((hourly.severity ≡ []) × ((default hourly).severity ≡ codes "medium"))
        ⊎ ((hourly.severity ≢ []) × ((default hourly).severity ≡ hourly.severity)))
    × ((default hourly).rules ≡ map enforced hourly.rules)
admitted_iff_example = admitted_iff hourly

hourly_is_admitted : (validate hourly).errors ≡ []
unfolding validate rule_errors is_key text_eq
hourly_is_admitted = refl

abbrev mistaken : SecurityPolicySpec
mistaken = record hourly {
  rules =
      advisory (codes "limits") (codes "resource-limits")
      ∷ advisory (codes "limits") (codes "kernel")
      ∷ [];
  schedule = codes "@hourly";
}

three_mistakes :
    (validate mistaken).errors
    ≡ duplicate_name 1 (codes "limits")
      ∷ invalid_type 1 (codes "kernel")
      ∷ invalid_schedule (codes "@hourly")
      ∷ []
unfolding validate rule_errors is_key text_eq
three_mistakes = refl
