-- ===== src/Webhook/Admission.antt =====
-- Which policies the webhook admits.
use aotanami.Scanner.Registry.Defaults.{lookup-Elem, built_in}
use aotanami.Scanner.Registry.{
  privilege_escalation_scanner, resource_limits_scanner, secrets_exposure_scanner,
  pod_security_scanner, network_policy_scanner, image_pinning_scanner, rbac_audit_scanner,
  container_security_context_scanner, lookup, Scanner,
}
use aotanami.Prelude.{
  ap, codes, ==_iff, if◌then◌else◌, map, inr, Bool-cases, subst, refl, false, ◌+◌, inl, arith, ◌&&◌,
  text_eq_iff, any_iff, All-Elem, some, both_nil, not, ◌==◌, Elem, ◌↔◌, All, ◌≢◌, length, ◌⊎◌, when,
  [], true, text_eq, ◌∷◌, ℕ, List, ◌≡◌, Bool, Text,
}
use aotanami.SecurityPolicy.Model.{SecurityPolicySpec, SecurityRule}
use aotanami.Webhook.{
  invalid_schedule, invalid_severity, default, field_count, rules_required, invalid_type,
  valid_severities, valid_rule_types, name_errors, is_key, validate, rule_errors, FieldError,
}

-- A built-in scanner serves the rule.
abbrev pub IsServed : Text → Type 0
IsServed type = (s : Scanner) × (lookup type built_in ≡ some s)

-- Each rule has a name that no earlier rule has, and a scanner.
abbrev pub AreAdmissible : List SecurityRule → List Text → Type 0
AreAdmissible [] seen = Unit
AreAdmissible (rule ∷ rules) seen =
    ((rule.name ≢ []) × ¬ Elem rule.name seen)
    × (IsServed rule.type × AreAdmissible rules (rule.name ∷ seen))

abbrev pub enforced : SecurityRule → SecurityRule
enforced rule = record rule { enforce = true }

pub record IsAdmissible (spec : SecurityPolicySpec) : Type 0 where
  pub severity : (spec.severity ≡ []) ⊎ Elem spec.severity valid_severities
  pub some_rule : spec.rules ≢ []
  pub rules : AreAdmissible spec.rules []
  pub schedule : (spec.schedule ≡ []) ⊎ (field_count false spec.schedule ≡ 5)

is_key_iff : (t : Text) (keys : List Text) → (is_key t keys ≡ true) ↔ Elem t keys
unfolding is_key
is_key_iff t keys = any_iff (text_eq t) (λ x. t ≡ x) (text_eq_iff t) keys

each_type-IsServed : All IsServed valid_rule_types
unfolding lookup text_eq
each_type-IsServed = (
  (container_security_context_scanner, refl),
  (
    (rbac_audit_scanner, refl),
    (
      (image_pinning_scanner, refl),
      (
        (network_policy_scanner, refl),
        (
          (pod_security_scanner, refl),
          (
            (secrets_exposure_scanner, refl),
            ((resource_limits_scanner, refl), ((privilege_escalation_scanner, refl), tt)),
          ),
        ),
      ),
    ),
  ),
)

IsKnown : Scanner → Type 0
IsKnown s = is_key s.rule_type valid_rule_types ≡ true

each_scanner-IsKnown : All IsKnown built_in
unfolding IsKnown is_key text_eq
each_scanner-IsKnown = (refl, (refl, (refl, (refl, (refl, (refl, (refl, (refl, tt))))))))

-- The types that the webhook knows are those that the default registry serves.
valid_type_iff : (type : Text) → (is_key type valid_rule_types ≡ true) ↔ IsServed type
unfolding IsKnown
valid_type_iff type = (
  (λ h.
      All-Elem IsServed type valid_rule_types each_type-IsServed
        ((is_key_iff type valid_rule_types).0 h)),
  λ (s, h).
      let (m, e) = lookup-Elem type built_in s h in
      subst (λ t. is_key t valid_rule_types ≡ true) e
        (All-Elem IsKnown s built_in each_scanner-IsKnown m),
)

-- `when (not b) e` is empty exactly if what `b` tests holds.
unless_nil : {P : Type 0} (b : Bool) (e : FieldError) → ((b ≡ true) ↔ P) → (when (not b) e ≡ []) ↔ P
unless_nil true e h = ((λ _. h.0 refl), λ _. refl)
unless_nil false e h = ((λ k. absurd (ground (arith, k))), λ p. absurd (ground (arith, h.1 p)))

-- `when (not a && not b) e` is empty exactly if what one of them tests holds.
unless_both_nil :
    {P Q : Type 0} (a b : Bool) (e : FieldError)
    → ((a ≡ true) ↔ P)
    → ((b ≡ true) ↔ Q)
    → (when (not a && not b) e ≡ []) ↔ (P ⊎ Q)
unless_both_nil true b e h k = ((λ _. inl (h.0 refl)), λ _. refl)
unless_both_nil false b e h k =
    let (to, from) = unless_nil b e k in
    ((λ x. inr (to x)), elim [ inl p ↦ absurd (ground (arith, h.1 p)) | inr q ↦ from q ])

name_errors-nil_iff :
    (i : ℕ) (rule : SecurityRule) (seen : List Text)
    → (name_errors i rule seen ≡ []) ↔ ((rule.name ≢ []) × ¬ Elem rule.name seen)
name_errors-nil_iff i rule seen =
    let (empty, is_empty) = text_eq_iff rule.name [] in
    let (known, is_known) = is_key_iff rule.name seen in
    elim (Bool-cases (text_eq rule.name [])) [
      | inl e ↦ rw e ((λ h. absurd (ground (arith, h))), λ k. absurd (k.0 (empty e)))
      | inr e ↦ rw e (elim (Bool-cases (is_key rule.name seen)) [
        | inl k ↦ rw k ((λ h. absurd (ground (arith, h))), λ m. absurd (m.1 (known k)))
        | inr k ↦ rw k (
          (λ _. ((λ x. ground (arith, e, is_empty x)), λ m. ground (arith, k, is_known m))),
          λ _. refl,
        )
      ])
    ]

rule_errors-nil_iff :
    (i : ℕ) (rules : List SecurityRule) (seen : List Text)
    → (rule_errors i rules seen ≡ []) ↔ AreAdmissible rules seen
unfolding rule_errors
rule_errors-nil_iff i [] seen = ((λ _. tt), λ _. refl)
rule_errors-nil_iff i (rule ∷ rules) seen =
    both_nil (name_errors i rule seen) _ (name_errors-nil_iff i rule seen) (
      both_nil (when (not (is_key rule.type valid_rule_types)) (invalid_type i rule.type)) _
        (unless_nil (is_key rule.type valid_rule_types) _ (valid_type_iff rule.type))
        (rule_errors-nil_iff (i + 1) rules (rule.name ∷ seen)))

some_rule_iff :
    (rules : List SecurityRule) → (when (length rules == 0) rules_required ≡ []) ↔ (rules ≢ [])
some_rule_iff [] = ((λ h. absurd (ground (arith, h))), λ k. absurd (k refl))
some_rule_iff (rule ∷ rules) = ((λ _ e. ground (arith, e)), λ _. ground arith)

-- The webhook admits a policy exactly if its severity is one of the five or missing, it has a rule,
-- each rule has a name that no earlier one has and a type that a built-in scanner serves, and its
-- schedule is missing or has five fields. Default changes a missing severity to medium and leaves
-- any other, and makes every rule enforced, whatever the user has set, changing nothing else of it.
pub admitted_iff :
    (spec : SecurityPolicySpec)
    → (((validate spec).errors ≡ []) ↔ IsAdmissible spec)
      × (((spec.severity ≡ []) × ((default spec).severity ≡ codes "medium"))
          ⊎ ((spec.severity ≢ []) × ((default spec).severity ≡ spec.severity)))
      × ((default spec).rules ≡ map enforced spec.rules)
unfolding validate default
admitted_iff spec =
    let (to, from) =
      both_nil _ _
        (unless_both_nil (text_eq spec.severity []) (is_key spec.severity valid_severities)
          (invalid_severity spec.severity) (text_eq_iff spec.severity [])
          (is_key_iff spec.severity valid_severities))
        (both_nil _ _ (some_rule_iff spec.rules) (
          both_nil _ _ (rule_errors-nil_iff 0 spec.rules []) (
            unless_both_nil (text_eq spec.schedule []) (field_count false spec.schedule == 5)
              (invalid_schedule spec.schedule) (text_eq_iff spec.schedule [])
              (==_iff (field_count false spec.schedule) 5)))) in
    (
      (
        (λ h.
            let (severity, (some_rule, (rules, schedule))) = to h in
            record {
              severity = severity;
              some_rule = some_rule;
              rules = rules;
              schedule = schedule;
            }),
        λ w. from (w.severity, (w.some_rule, (w.rules, w.schedule))),
      ),
      elim (Bool-cases (text_eq spec.severity [])) [
        | inl e ↦ inl ((text_eq_iff spec.severity []).0 e, rw e refl)
        | inr e ↦ inr ((λ k. ground (arith, e, (text_eq_iff spec.severity []).1 k)), rw e refl)
      ],
      all_enforced spec.rules,
    )
  where
    all_enforced :
        (rules : List SecurityRule)
        → map (λ rule. if not rule.enforce then record rule { enforce = true } else rule) rules
          ≡ map enforced rules
    all_enforced [] = refl
    all_enforced (rule ∷ rules) = elim (Bool-cases rule.enforce) [
      | inl e ↦ rw e (ap (λ rs. enforced rule ∷ rs) (all_enforced rules))
      | inr e ↦ rw e (ap (λ rs. enforced rule ∷ rs) (all_enforced rules))
    ]
