-- ===== src/Scanner/Hardened/Accounts.antt =====
-- The scanners of secrets, networks and service accounts find nothing exactly where their advice is
-- kept.
use aotanami.Scanner.Hardened.Pointers.{false_iff}
use aotanami.Scanner.SecretsExposure.{is_secret_key_ref, is_sensitive}
use aotanami.Scanner.Hardened.{
  KeepsSecrets, is_secret_key_ref, dangerous_sa_names, is_sensitive, is_system_namespace,
  all_containers, sa_name_of, IsHarmless, IsSegmented, IsDiscreet, HasOwnAccount,
}
use aotanami.Scanner.Pod.{is_system_namespace, all_containers, EnvVarSource, EnvVar, Container, Pod}
use aotanami.Scanner.RbacAudit.{dangerous_sa_names, sa_name_of, default_sa, first_pattern}
use aotanami.Prelude.{
  refl, contains, inr, inl, when, when_nil, to_lower, ◌∷◌, both_nil, some, gather-nil_iff,
  text_eq_iff, skip_nil, arith, ◌⊎◌, All, none, ◌≢◌, ◌↔◌, ◌&&◌, false, ◌==◌, [], length, Option,
  text_eq, ◌≡◌, ltb, not, Text, ℕ, List,
}
use aotanami.Scanner.SecretsExposure as Secrets
use aotanami.Scanner.NetworkPolicy as Network
use aotanami.Scanner.RbacAudit as Rbac

env_from_findings-nil_iff :
    (pod : Pod) (c : Container) (o : Option Text)
    → (Secrets.env_from_findings pod c o ≡ []) ↔ (o ≡ none)
env_from_findings-nil_iff pod c none = ground arith
env_from_findings-nil_iff pod c (some secret) = ground arith

hardcoded_iff :
    (value : Text) (o : Option EnvVarSource)
    → ((not (text_eq value []) && Secrets.is_none o) ≡ false) ↔ ((value ≡ []) ⊎ (o ≢ none))
hardcoded_iff value none = ground (arith, text_eq_iff value [])
hardcoded_iff value (some source) = ground (arith, text_eq_iff value [])

env_findings-IsHarmless :
    (pod : Pod) (c : Container) (env : EnvVar)
    → (Secrets.env_findings pod c env ≡ []) ↔ IsHarmless env
env_findings-IsHarmless pod c env =
    let (to, from) = skip_nil (not (is_sensitive env.name)) _ (
      both_nil _ _
        (when_nil (not (text_eq env.value []) && Secrets.is_none env.value_from)
          (Secrets.hardcodes_secret c env pod) (hardcoded_iff env.value env.value_from))
        (when_nil (is_secret_key_ref env.value_from) (Secrets.passes_secret c env pod)
          (false_iff (is_secret_key_ref env.value_from)))) in
    (
      (λ e. elim (to e) [ inl t ↦ inl (ground arith) | inr h ↦ inr h ]),
      elim [ inl f ↦ from (inl (ground arith)) | inr h ↦ from (inr h) ],
    )

check_container-IsDiscreet :
    (pod : Pod) (c : Container) → (Secrets.check_container pod c ≡ []) ↔ IsDiscreet c
check_container-IsDiscreet pod c =
    let (to, from) =
      both_nil _ _
        (gather-nil_iff (Secrets.env_from_findings pod c) (λ secret. secret ≡ none)
          (env_from_findings-nil_iff pod c) c.env_from)
        (gather-nil_iff (Secrets.env_findings pod c) IsHarmless (env_findings-IsHarmless pod c)
          c.env) in
    (
      (λ e. record { no_secret_refs = (to e).0; harmless = (to e).1 }),
      λ h. from (h.no_secret_refs, h.harmless),
    )

-- SecretsExposureScanner finds nothing exactly when no container has a secret in its environment.
pub secrets_exposure_iff : (pods : List Pod) → (Secrets.scan pods ≡ []) ↔ All KeepsSecrets pods
unfolding Secrets.scan
secrets_exposure_iff pods =
    gather-nil_iff Secrets.checks KeepsSecrets
      (λ pod.
        gather-nil_iff (Secrets.check_container pod) IsDiscreet (check_container-IsDiscreet pod)
          (all_containers pod))
      pods

positive_iff : (port : ℕ) → (ltb 0 port ≡ false) ↔ (port ≡ 0)
positive_iff port = ground arith

no_labels_iff : (labels : List (Text × Text)) → ((length labels == 0) ≡ false) ↔ (labels ≢ [])
no_labels_iff [] = ground arith
no_labels_iff (l ∷ labels) = ground arith

network_checks-IsSegmented : (pod : Pod) → (Network.checks pod ≡ []) ↔ IsSegmented pod
network_checks-IsSegmented pod = skip_nil (is_system_namespace pod.namespace) _ (
    both_nil _ _
      (when_nil (length pod.labels == 0) (Network.has_no_labels pod) (no_labels_iff pod.labels))
      (gather-nil_iff (Network.check_container pod) (λ c. All (λ port. port ≡ 0) c.host_ports)
        (λ c.
          gather-nil_iff (λ port. when (ltb 0 port) (Network.uses_host_port c port pod))
            (λ port. port ≡ 0)
            (λ port. when_nil (ltb 0 port) (Network.uses_host_port c port pod) (positive_iff port))
            c.host_ports)
        pod.containers))

-- NetworkPolicyScanner finds nothing exactly when every pod outside the system's namespaces has
-- labels and takes no port of its host.
pub network_policy_iff : (pods : List Pod) → (Network.scan pods ≡ []) ↔ All IsSegmented pods
unfolding Network.scan
network_policy_iff pods = gather-nil_iff Network.checks IsSegmented network_checks-IsSegmented pods

first_pattern-none_iff :
    (name : Text) (patterns : List Text)
    → (first_pattern name patterns ≡ none) ↔ All (λ pattern. contains name pattern ≡ false) patterns
unfolding first_pattern
first_pattern-none_iff name [] = ((λ e. tt), λ h. refl)
first_pattern-none_iff name (pattern ∷ patterns) =
    ground (arith, first_pattern-none_iff name patterns)

broad_findings-nil_iff :
    (pod : Pod) (sa_name : Text) (o : Option Text)
    → (Rbac.broad_findings pod sa_name o ≡ []) ↔ (o ≡ none)
broad_findings-nil_iff pod sa_name none = ground arith
broad_findings-nil_iff pod sa_name (some pattern) = ground arith

deprecated_iff :
    (old sa_name : Text)
    → ((not (text_eq old []) && not (text_eq old sa_name)) ≡ false) ↔ ((old ≡ []) ⊎ (old ≡ sa_name))
deprecated_iff old sa_name = ground (arith, text_eq_iff old [], text_eq_iff old sa_name)

not_default_iff : (name : Text) → (text_eq name default_sa ≡ false) ↔ (name ≢ default_sa)
not_default_iff name = ground (arith, text_eq_iff name default_sa)

rbac_checks-HasOwnAccount : (pod : Pod) → (Rbac.checks pod ≡ []) ↔ HasOwnAccount pod
rbac_checks-HasOwnAccount pod =
    let sa_name = sa_name_of pod in
    let lower = to_lower sa_name in
    let (nothing, broad) =
      broad_findings-nil_iff pod sa_name (first_pattern lower dangerous_sa_names) in
    let (none_fits, fits) = first_pattern-none_iff lower dangerous_sa_names in
    let (to, from) = skip_nil (is_system_namespace pod.namespace) _ (
      both_nil _ _
        (both_nil _ _
          (when_nil (text_eq sa_name default_sa) (Rbac.uses_default_account pod)
            (not_default_iff sa_name))
          ((λ e. none_fits (nothing e)), λ h. broad (fits h)))
        (when_nil
          (not (text_eq pod.deprecated_service_account [])
            && not (text_eq pod.deprecated_service_account sa_name))
          (Rbac.uses_deprecated_account pod)
          (deprecated_iff pod.deprecated_service_account sa_name))) in
    (
      (λ e. elim (to e) [ inl s ↦ inl s | inr ((d, m), o) ↦ inr (d, m, o) ]),
      elim [ inl s ↦ from (inl s) | inr (d, m, o) ↦ from (inr ((d, m), o)) ],
    )

-- RBACAuditScanner finds nothing exactly when every pod outside the system's namespaces has a service
-- account of its own that is named modestly.
pub rbac_audit_iff : (pods : List Pod) → (Rbac.scan pods ≡ []) ↔ All HasOwnAccount pods
unfolding Rbac.scan
rbac_audit_iff pods = gather-nil_iff Rbac.checks HasOwnAccount rbac_checks-HasOwnAccount pods
