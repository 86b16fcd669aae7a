-- ===== src/Scanner/PrivilegeEscalation.antt =====
-- internal/scanner/privilege_escalation.go: PrivilegeEscalationScanner.
use aotanami.Remediation.Model.{Finding}
use aotanami.Scanner.Pod.{
  is_zero, is_unset_or, medium, SecurityContext, critical, PodSecurityContext, pod_finding, Pod,
  Container,
}
use aotanami.Prelude.{
  text_eq, none, some, ℕ, false, [], when, Bool, gather, ◌++◌, List, codes, Option, Text, utf8,
  quote,
}

abbrev pub privilege_escalation : Text
privilege_escalation = codes "privilege-escalation"

abbrev pub mounts_token : Pod → Finding
mounts_token pod =
    pod_finding privilege_escalation medium (utf8 "Service account token is auto-mounted")
      (utf8
        "The pod auto-mounts the service account token. If compromised, an attacker can use it to access the Kubernetes API.")
      (utf8
        "Set automountServiceAccountToken: false on pods that don't need Kubernetes API access.")
      pod

abbrev pub pod_is_root_user : Pod → Finding
pod_is_root_user pod =
    pod_finding privilege_escalation critical (utf8 "Pod runs as root user (UID 0)")
      (utf8
        "The pod is configured to run as UID 0. A container escape from a root process is especially dangerous.")
      (utf8 "Set runAsUser to a non-zero UID, or set runAsNonRoot: true.") pod

abbrev pub pod_is_root_group : Pod → Finding
pod_is_root_group pod =
    pod_finding privilege_escalation medium (utf8 "Pod runs as root group (GID 0)")
      (utf8
        "The pod is configured to run as GID 0 (root group). Files created by the container will be owned by the root group.")
      (utf8 "Set runAsGroup to a non-zero GID.") pod

abbrev pub container_is_root_user : Container → Pod → Finding
container_is_root_user container pod =
    pod_finding privilege_escalation critical
      (utf8 "Container " ++ quote container.name ++ utf8 " runs as root user (UID 0)")
      (utf8
        "The container is configured to run as UID 0 (root). This maximizes the impact of a container escape.")
      (utf8 "Set runAsUser to a non-zero UID in the container's securityContext.") pod

abbrev pub unmasks_proc : Container → Pod → Finding
unmasks_proc container pod =
    pod_finding privilege_escalation critical
      (utf8 "Container " ++ quote container.name ++ utf8 " has unmasked /proc mount")
      (utf8
        "procMount is set to Unmasked, exposing the full /proc filesystem. This can leak sensitive host information.")
      (utf8 "Remove procMount or set it to Default.") pod

abbrev pub user_of_pod : Option PodSecurityContext → Option ℕ
user_of_pod none = none
user_of_pod (some sc) = sc.run_as_user

abbrev pub group_of_pod : Option PodSecurityContext → Option ℕ
group_of_pod none = none
group_of_pod (some sc) = sc.run_as_group

-- checkPodEscalation
pub check_pod_escalation : Pod → List Finding
check_pod_escalation pod =
    when (is_unset_or pod.automount_service_account_token) (mounts_token pod)
    ++ when (is_zero (user_of_pod pod.security_context)) (pod_is_root_user pod)
    ++ when (is_zero (group_of_pod pod.security_context)) (pod_is_root_group pod)

abbrev pub is_unmasked : Option Text → Bool
is_unmasked none = false
is_unmasked (some mount) = text_eq mount (codes "Unmasked")

-- The body of the loop of checkContainerEscalation.
abbrev pub container_findings : Pod → Container → Option SecurityContext → List Finding
container_findings pod c none = []
container_findings pod c (some sc) =
    when (is_zero sc.run_as_user) (container_is_root_user c pod)
    ++ when (is_unmasked sc.proc_mount) (unmasks_proc c pod)

-- checkContainerEscalation
pub check_container_escalation : Pod → List Finding
check_container_escalation pod =
    gather (λ c. container_findings pod c c.security_context) pod.containers

abbrev pub checks : Pod → List Finding
checks pod = check_pod_escalation pod ++ check_container_escalation pod

-- Scan
unfoldable pub scan : List Pod → List Finding
unfolding check_pod_escalation check_container_escalation
scan pods = gather checks pods
