-- ===== src/Scanner/Registry/Defaults.antt =====
-- The default registry holds each of the eight scanners under its rule type.
use aotanami.Scanner.Registry.{
  or_panic, rbac_audit_scanner, network_policy_scanner, secrets_exposure_scanner,
  privilege_escalation_scanner, pod_security_scanner, image_pinning_scanner,
  resource_limits_scanner, Scanner, container_security_context_scanner, default_registry, lookup,
  register, Registry,
}
use mathlib.Core.Option.{some_inj}
use aotanami.Prelude.{
  text_eq_refl, text_eq_iff, inr, ◌≢◌, subst, ◌++◌, Option, sym, ◌↔◌, [], inl, Bool-cases, arith,
  refl, if◌then◌else◌, Elem, some, ◌≡◌, ◌∷◌, Text, text_eq, none,
}

-- The built-in scanners, in the order in which DefaultRegistry registers them.
abbrev pub built_in : Registry
built_in =
    container_security_context_scanner ∷ resource_limits_scanner ∷ image_pinning_scanner
    ∷ pod_security_scanner ∷ privilege_escalation_scanner ∷ secrets_exposure_scanner
    ∷ network_policy_scanner ∷ rbac_audit_scanner ∷ []

-- DefaultRegistry does not panic: no two of the built-in scanners have one rule type.
pub default_registry-built_in : default_registry ≡ some built_in
unfolding default_registry text_eq
default_registry-built_in = refl

pub lookup-Elem :
    (rule_type : Text) (r : Registry) (s : Scanner)
    → lookup rule_type r ≡ some s
    → Elem s r × (s.rule_type ≡ rule_type)
unfolding lookup
lookup-Elem rule_type [] s h = absurd (ground (arith, h))
lookup-Elem rule_type (s' ∷ r) s h = elim (Bool-cases (text_eq s'.rule_type rule_type)) [
  | inl e ↦
      let same : s' ≡ s = some_inj.0 (rw e at h) in
      (inl (sym same), subst (λ x. x.rule_type ≡ rule_type) same ((text_eq_iff _ _).0 e))
  | inr e ↦ let (m, t) = lookup-Elem rule_type r s (rw e at h) in (inr m, t)
]

or_panic-some :
    (s : Scanner) (r r' : Registry) (o : Option Scanner)
    → or_panic s r o ≡ some r'
    → (o ≡ none) × (r' ≡ r ++ s ∷ [])
or_panic-some s r r' none h = (refl, sym (some_inj.0 h))
or_panic-some s r r' (some present) h = cc

lookup-snoc :
    (s : Scanner) (r : Registry) (t : Text)
    → lookup s.rule_type r ≡ none
    → lookup t (r ++ s ∷ []) ≡ (if text_eq s.rule_type t then some s else lookup t r)
unfolding lookup
lookup-snoc s [] t h = refl
lookup-snoc s (s' ∷ r) t h = elim (Bool-cases (text_eq s'.rule_type s.rule_type)) [
  | inl e ↦ absurd (ground (arith, e, h))
  | inr e ↦ elim (Bool-cases (text_eq s'.rule_type t)) [
    | inl k ↦ elim (Bool-cases (text_eq s.rule_type t)) [
      | inl l ↦ absurd (
          ground (
            arith,
            e,
            text_eq_refl s.rule_type,
            k,
            l,
            text_eq_iff s'.rule_type t,
            text_eq_iff s.rule_type t,
            text_eq_iff s'.rule_type s.rule_type,
          ))
      | inr l ↦ rw (k, l) refl
    ]
    | inr k ↦ rw k (lookup-snoc s r t (rw e at h))
  ]
]

-- Register panics exactly if a scanner of the rule type is there.
pub register-none_iff :
    (s : Scanner) (r : Registry) → (register s r ≡ none) ↔ (lookup s.rule_type r ≢ none)
unfolding register
register-none_iff s r = ground arith

-- Otherwise Get finds the new scanner under its rule type, and under any other what it found before.
pub lookup-register :
    (s : Scanner) (r r' : Registry) (t : Text)
    → register s r ≡ some r'
    → lookup t r' ≡ (if text_eq s.rule_type t then some s else lookup t r)
unfolding register
lookup-register s r r' t h =
    let (free, e) = or_panic-some s r r' (lookup s.rule_type r) h in rw e (lookup-snoc s r t free)
