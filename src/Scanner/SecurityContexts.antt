-- ===== src/Scanner/SecurityContexts.antt =====
-- internal/scanner/security_context.go: ContainerSecurityContextScanner.
use aotanami.Remediation.Model.{Finding}
use aotanami.Scanner.Pod.{
  is_unset_or, is_set, all_containers, critical, SecurityContext, PodSecurityContext, medium, high,
  low, pod_finding, Pod, Container,
}
use aotanami.Prelude.{
  ◌&&◌, not, when, none, some, [], ◌∷◌, ◌++◌, Bool, gather, List, Option, codes, Text, utf8, quote,
}

abbrev pub container_security_context : Text
container_security_context = codes "container-security-context"

abbrev pub has_no_context : Container → Pod → Finding
has_no_context container pod =
    pod_finding container_security_context high
      (utf8 "Container " ++ quote container.name ++ utf8 " has no security context")
      (utf8
        "No SecurityContext is defined. This means the container runs with default privileges, which may be excessive.")
      (utf8
        "Set a SecurityContext with runAsNonRoot: true, readOnlyRootFilesystem: true, and allowPrivilegeEscalation: false.")
      pod

abbrev pub is_privileged : Container → Pod → Finding
is_privileged container pod =
    pod_finding container_security_context critical
      (utf8 "Container " ++ quote container.name ++ utf8 " runs as privileged")
      (utf8
        "Running as privileged gives the container full access to the host. This is a critical security risk.")
      (utf8 "Remove privileged: true from the security context unless absolutely required.") pod

abbrev pub may_run_as_root : Container → Pod → Finding
may_run_as_root container pod =
    pod_finding container_security_context medium
      (utf8 "Container " ++ quote container.name ++ utf8 " may run as root")
      (utf8 "runAsNonRoot is not set to true. The container may run as UID 0 (root).")
      (utf8 "Set securityContext.runAsNonRoot: true.") pod

abbrev pub has_writable_root : Container → Pod → Finding
has_writable_root container pod =
    pod_finding container_security_context low
      (utf8 "Container " ++ quote container.name ++ utf8 " has writable root filesystem")
      (utf8
        "readOnlyRootFilesystem is not set to true. An attacker could write to the container filesystem.")
      (utf8
        "Set securityContext.readOnlyRootFilesystem: true and use emptyDir volumes for writable paths.")
      pod

abbrev pub may_escalate : Container → Pod → Finding
may_escalate container pod =
    pod_finding container_security_context medium
      (utf8 "Container " ++ quote container.name ++ utf8 " allows privilege escalation")
      (utf8
        "allowPrivilegeEscalation is not set to false. A process inside the container could gain more privileges than its parent.")
      (utf8 "Set securityContext.allowPrivilegeEscalation: false.") pod

abbrev pub non_root_of_pod : Option PodSecurityContext → Option Bool
non_root_of_pod none = none
non_root_of_pod (some sc) = sc.run_as_non_root

-- The body of the loop over the containers.
abbrev pub check_container : Pod → Container → Option SecurityContext → List Finding
check_container pod c none = has_no_context c pod ∷ []
check_container pod c (some sc) =
    when (is_set sc.privileged) (is_privileged c pod)
    ++ when (not (is_set sc.run_as_non_root) && not (is_set (non_root_of_pod pod.security_context)))
        (may_run_as_root c pod)
    ++ when (not (is_set sc.read_only_root_filesystem)) (has_writable_root c pod)
    ++ when (is_unset_or sc.allow_privilege_escalation) (may_escalate c pod)

abbrev pub checks : Pod → List Finding
checks pod = gather (λ c. check_container pod c c.security_context) (all_containers pod)

-- Scan
unfoldable pub scan : List Pod → List Finding
scan pods = gather checks pods
