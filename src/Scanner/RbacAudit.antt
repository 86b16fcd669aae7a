-- ===== src/Scanner/RbacAudit.antt =====
-- internal/scanner/rbac_audit.go: RBACAuditScanner.
use aotanami.Remediation.Model.{Finding}
use aotanami.Scanner.Pod.{is_system_namespace, high, medium, low, pod_finding, Pod}
use aotanami.Prelude.{
  ◌&&◌, not, to_lower, when, some, contains, ◌++◌, none, ◌∷◌, gather, text_eq, [], List,
  if◌then◌else◌, Option, codes, Text, utf8, quote,
}

abbrev pub rbac_audit : Text
rbac_audit = codes "rbac-audit"

abbrev pub uses_default_account : Pod → Finding
uses_default_account pod =
    pod_finding rbac_audit medium (utf8 "Pod uses the default service account")
      (utf8
        "Using the default service account means the pod inherits whatever RBAC bindings exist on 'default'. This is often more permissive than needed.")
      (utf8
        "Create a dedicated service account with least-privilege RBAC bindings for this workload.")
      pod

abbrev pub uses_broad_account : Text → Text → Pod → Finding
uses_broad_account sa_name pattern pod =
    pod_finding rbac_audit high
      (utf8 "Pod uses potentially over-privileged service account " ++ quote sa_name)
      (utf8 "Service account "
        ++ quote sa_name
        ++ utf8 " contains "
        ++ quote pattern
        ++ utf8
            " in its name, suggesting admin-level permissions. Workloads should use least-privilege service accounts.")
      (utf8
        "Audit the RBAC bindings of this service account and replace with a least-privilege alternative.")
      pod

abbrev pub uses_deprecated_account : Pod → Finding
uses_deprecated_account pod =
    pod_finding rbac_audit low (utf8 "Pod uses deprecated serviceAccount field")
      (utf8 "The deprecated 'serviceAccount' field is set. Use 'serviceAccountName' instead.")
      (utf8 "Migrate from spec.serviceAccount to spec.serviceAccountName.") pod

-- dangerousSANames
abbrev pub dangerous_sa_names : List Text
dangerous_sa_names = codes "admin" ∷ codes "cluster-admin" ∷ codes "superuser" ∷ codes "root" ∷ []

abbrev pub default_sa : Text
default_sa = codes "default"

-- The service account of the pod.
abbrev pub sa_name_of : Pod → Text
sa_name_of pod =
    if text_eq pod.service_account_name [] then default_sa else pod.service_account_name

-- The loop over the patterns: the first one that fits.
unfoldable pub first_pattern : Text → List Text → Option Text
first_pattern sa_lower [] = none
first_pattern sa_lower (pattern ∷ patterns) =
    let rest = first_pattern sa_lower patterns in
    if contains sa_lower pattern then some pattern else rest

abbrev pub broad_findings : Pod → Text → Option Text → List Finding
broad_findings pod sa_name none = []
broad_findings pod sa_name (some pattern) = uses_broad_account sa_name pattern pod ∷ []

-- The body of the loop over the pods.
abbrev pub checks : Pod → List Finding
checks pod =
    let sa_name = sa_name_of pod in
    if is_system_namespace pod.namespace
    then []
    else when (text_eq sa_name default_sa) (uses_default_account pod)
      ++ broad_findings pod sa_name (first_pattern (to_lower sa_name) dangerous_sa_names)
      ++ when
          (not (text_eq pod.deprecated_service_account [])
            && not (text_eq pod.deprecated_service_account sa_name))
          (uses_deprecated_account pod)

-- Scan
unfoldable pub scan : List Pod → List Finding
unfolding first_pattern
scan pods = gather checks pods
