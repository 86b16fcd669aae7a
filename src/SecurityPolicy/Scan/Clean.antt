-- ===== src/SecurityPolicy/Scan/Clean.antt =====
-- A policy over the built-in scanners reports nothing exactly at pods that comply with its rules.
use aotanami.Scanner.Hardened.Accounts.{rbac_audit_iff, network_policy_iff, secrets_exposure_iff}
use aotanami.Scanner.Hardened.Hosts.{pod_security_iff}
use aotanami.Scanner.Hardened.Containers.{
  privilege_escalation_iff, image_pinning_iff, resource_limits_iff, security_contexts_iff,
}
use aotanami.SecurityPolicy.Scan.Sorted.{sort-nil_iff}
use aotanami.Scanner.RbacAudit.{rbac_audit}
use aotanami.Scanner.NetworkPolicy.{network_policy}
use aotanami.Scanner.SecretsExposure.{secrets_exposure}
use aotanami.Scanner.PrivilegeEscalation.{privilege_escalation}
use aotanami.Scanner.PodSecurity.{pod_security}
use aotanami.Scanner.ImagePinning.{image_vulnerability}
use aotanami.Scanner.ResourceLimits.{resource_limits}
use aotanami.Scanner.Registry.Defaults.{built_in}
use aotanami.Scanner.Hardened.{
  KeepsSecrets, HasPinnedImages, IsRationed, HasOwnAccount, IsSegmented, IsUnescalated, IsIsolated,
  HasContexts,
}
use aotanami.Scanner.SecurityContexts.{container_security_context}
use aotanami.Scanner.Registry.{
  rbac_audit_scanner, network_policy_scanner, secrets_exposure_scanner,
  privilege_escalation_scanner, pod_security_scanner, image_pinning_scanner,
  resource_limits_scanner, container_security_context_scanner, Scanner, found, lookup, Registry,
}
use aotanami.Scanner.Registry.Reports.{built_in-ReportsOn, IsReport, ReportsOn, IsGraded}
use aotanami.Scanner.Pod.{Pod}
use aotanami.SecurityPolicy.Scan.{
  run_policy_scanners, findings_of, within, rule_findings, Registry, Pod, severity_order,
}
use aotanami.Prelude.{
  everywhere, gather-nil_iff, gather, Bool-cases, All-map, leb, refl, ◌↔◌, [], filter, inr, Option,
  ◌∷◌, true, arith, inl, ◌≡◌, if◌then◌else◌, All, Any, ◌≤◌, text_eq, Bool, ℕ, Text, List,
}
use aotanami.Remediation.Model.{Finding}
use aotanami.Scanner.SecurityContexts
use aotanami.Scanner.ResourceLimits
use aotanami.Scanner.ImagePinning
use aotanami.Scanner.PodSecurity
use aotanami.Scanner.PrivilegeEscalation
use aotanami.Scanner.SecretsExposure
use aotanami.Scanner.NetworkPolicy
use aotanami.Scanner.RbacAudit
use aotanami.SecurityPolicy.Model.{SecurityRule, SecurityPolicy}

-- What a rule type asks of a pod; nothing, if no built-in scanner has it.
pub Complies : Text → Pod → Type 0
Complies rule_type =
    if text_eq container_security_context rule_type
    then HasContexts
    else if text_eq resource_limits rule_type
    then IsRationed
    else if text_eq image_vulnerability rule_type
    then HasPinnedImages
    else if text_eq pod_security rule_type
    then IsIsolated
    else if text_eq privilege_escalation rule_type
    then IsUnescalated
    else if text_eq secrets_exposure rule_type
    then KeepsSecrets
    else if text_eq network_policy rule_type
    then IsSegmented
    else if text_eq rbac_audit rule_type
    then HasOwnAccount
    else (λ pod. Unit)

filter_everything :
    (p : Finding → Bool) (fs : List Finding) → All (λ f. p f ≡ true) fs → filter p fs ≡ fs
filter_everything p [] h = refl
filter_everything p (f ∷ fs) (h, hs) = rw (h, filter_everything p fs hs)

IsGraded-order : (s : Text) → IsGraded s → severity_order s ≤ 3
unfolding severity_order text_eq
IsGraded-order s (inl e) = rw e (omega arith)
IsGraded-order s (inr (inl e)) = rw e (omega arith)
IsGraded-order s (inr (inr (inl e))) = rw e (omega arith)
IsGraded-order s (inr (inr (inr e))) = rw e (omega arith)

Any-IsGraded :
    (rule_type : Text) (f : Finding) (pods : List Pod)
    → Any (λ pod. IsReport rule_type pod f) pods
    → IsGraded f.severity
Any-IsGraded rule_type f [] m = absurd m
Any-IsGraded rule_type f (pod ∷ pods) (inl r) = r.graded
Any-IsGraded rule_type f (pod ∷ pods) (inr m) = Any-IsGraded rule_type f pods m

-- At severity low or info a built-in scanner's findings are all kept.
within_everything :
    (m : ℕ) (pods : List Pod) (rule_type : Text) (fs : List Finding)
    → 3 ≤ m
    → ReportsOn pods rule_type (found fs)
    → within m fs ≡ fs
within_everything m pods rule_type fs h reports =
    filter_everything (λ f. leb (severity_order f.severity) m) fs
      (All-map _ _
        (λ f r.
          let low = IsGraded-order f.severity (Any-IsGraded rule_type f pods r) in ground arith)
        fs reports)

module _ (policy : SecurityPolicy) (pods : List Pod) (rule : SecurityRule)
    (all_kept : 3 ≤ severity_order policy.spec.severity) where
  module _ (registry : Registry) where
    abbrev IsClean : Option Scanner → Type 0
    IsClean o = findings_of registry policy pods rule o ≡ []

    -- An empty registry.
    IsClean-none : IsClean (lookup rule.type []) ↔ All (λ pod. Unit {0}) pods
    unfolding lookup
    IsClean-none = ((λ m. everywhere (λ pod. tt) pods), λ m. refl)

    -- One more scanner in the registry.
    IsClean-step :
        (s : Scanner) (r : Registry) (fs : List Finding) (C D : Pod → Type 0)
        → s.scan pods rule.params ≡ found fs
        → ReportsOn pods s.rule_type (found fs)
        → (fs ≡ []) ↔ All C pods
        → IsClean (lookup rule.type r) ↔ All D pods
        → IsClean (lookup rule.type (s ∷ r))
          ↔ All (if text_eq s.rule_type rule.type then C else D) pods
    unfolding lookup
    IsClean-step s r fs C D scanned reports here there =
        elim (Bool-cases (text_eq s.rule_type rule.type)) [
          | inl e ↦ rw e (
              rw
                (
                  scanned,
                  within_everything (severity_order policy.spec.severity) pods s.rule_type fs
                      all_kept reports,
                )
                here)
          | inr e ↦ rw e there
        ]

  rule_is_clean_iff : (rule_findings built_in policy pods rule ≡ []) ↔ All (Complies rule.type) pods
  unfolding rule_findings Complies
  rule_is_clean_iff =
      let (r1, (r2, (r3, (r4, (r5, (r6, (r7, (r8, _)))))))) = built_in-ReportsOn pods rule.params in
      (IsClean-step built_in container_security_context_scanner _ (SecurityContexts.scan pods) _ _
        refl r1 (security_contexts_iff pods)
        (IsClean-step built_in resource_limits_scanner _ (ResourceLimits.scan pods) _ _ refl r2
          (resource_limits_iff pods)
          (IsClean-step built_in image_pinning_scanner _ (ImagePinning.scan pods) _ _ refl r3
            (image_pinning_iff pods)
            (IsClean-step built_in pod_security_scanner _ (PodSecurity.scan pods) _ _ refl r4
              (pod_security_iff pods)
              (IsClean-step built_in privilege_escalation_scanner _ (PrivilegeEscalation.scan pods)
                _ _ refl r5 (privilege_escalation_iff pods)
                (IsClean-step built_in secrets_exposure_scanner _ (SecretsExposure.scan pods) _ _
                  refl r6 (secrets_exposure_iff pods)
                  (IsClean-step built_in network_policy_scanner _ (NetworkPolicy.scan pods) _ _ refl
                    r7 (network_policy_iff pods)
                    (IsClean-step built_in rbac_audit_scanner [] (RbacAudit.scan pods) _
                      (λ pod. Unit) refl r8 (rbac_audit_iff pods) (IsClean-none built_in)))))))))

-- A policy that reports even low severities finds nothing in pods exactly when each of them complies
-- with all of its rules.
pub clean_scan_iff :
    (policy : SecurityPolicy) (pods : List Pod)
    → 3 ≤ severity_order policy.spec.severity
    → ((run_policy_scanners built_in policy pods).findings ≡ [])
      ↔ All (λ rule. All (Complies rule.type) pods) policy.spec.rules
unfolding run_policy_scanners
clean_scan_iff policy pods h =
    let (to, from) = sort-nil_iff (gather (rule_findings built_in policy pods) policy.spec.rules) in
    let (to', from') =
      gather-nil_iff (rule_findings built_in policy pods) (λ rule. All (Complies rule.type) pods)
        (λ rule. rule_is_clean_iff policy pods rule h) policy.spec.rules in
    ((λ e. to' (to e)), λ k. from (from' k))
