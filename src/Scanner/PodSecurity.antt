-- ===== src/Scanner/PodSecurity.antt =====
-- internal/scanner/pod_security.go: PodSecurityScanner.
use aotanami.Remediation.Model.{Finding}
use aotanami.Scanner.Pod.{
  is_set, all_containers, critical, SecurityContext, high, medium, Volume, pod_finding, Pod,
  Container,
}
use aotanami.Prelude.{
  none, ◌∷◌, some, ◌||◌, when, ◌++◌, [], has_prefix, gather, text_eq, Option, Bool, List,
  if◌then◌else◌, codes, Text, utf8, quote,
}

abbrev pub pod_security : Text
pod_security = codes "pod-security"

abbrev pub uses_host_network : Pod → Finding
uses_host_network pod =
    pod_finding pod_security critical (utf8 "Pod uses host network")
      (utf8
        "hostNetwork is enabled, giving the pod access to the host's network interfaces. This bypasses network policies.")
      (utf8
        "Remove hostNetwork: true unless the pod genuinely needs host networking (e.g., CNI plugins).")
      pod

abbrev pub uses_host_pid : Pod → Finding
uses_host_pid pod =
    pod_finding pod_security critical (utf8 "Pod uses host PID namespace")
      (utf8 "hostPID is enabled, allowing the pod to see and signal all host processes.")
      (utf8 "Remove hostPID: true. This is rarely needed outside of system-level debugging.") pod

abbrev pub uses_host_ipc : Pod → Finding
uses_host_ipc pod =
    pod_finding pod_security high (utf8 "Pod uses host IPC namespace")
      (utf8 "hostIPC is enabled, enabling shared memory communication with host processes.")
      (utf8 "Remove hostIPC: true unless required for legacy IPC communication.") pod

abbrev pub mounts_host_path : Text → Volume → Text → Pod → Finding
mounts_host_path sev vol path pod =
    pod_finding pod_security sev (utf8 "Pod mounts host path " ++ quote path)
      (utf8 "Volume "
        ++ quote vol.name
        ++ utf8 " mounts host path "
        ++ quote path
        ++ utf8 ". This can expose sensitive host files.")
      (utf8
        "Use PersistentVolumeClaims or emptyDir instead of hostPath. If hostPath is needed, use readOnly mode.")
      pod

abbrev pub adds_capability : Container → Text → Pod → Finding
adds_capability container capability pod =
    pod_finding pod_security high
      (utf8 "Container "
        ++ quote container.name
        ++ utf8 " adds dangerous capability "
        ++ capability)
      (utf8 "Capability "
        ++ capability
        ++ utf8 " is added to the container. This grants elevated kernel privileges.")
      (utf8 "Remove "
        ++ capability
        ++ utf8 " from securityContext.capabilities.add unless absolutely required.")
      pod

abbrev pub shares_process_namespace : Pod → Finding
shares_process_namespace pod =
    pod_finding pod_security medium (utf8 "Pod shares process namespace between containers")
      (utf8
        "shareProcessNamespace is enabled. Containers can see and signal each other's processes.")
      (utf8
        "Disable shareProcessNamespace unless containers genuinely need to share PID namespace.")
      pod

-- checkHostNamespaces
pub check_host_namespaces : Pod → List Finding
check_host_namespaces pod =
    when pod.host_network (uses_host_network pod)
    ++ when pod.host_pid (uses_host_pid pod)
    ++ when pod.host_ipc (uses_host_ipc pod)

-- The severity of a mounted path.
abbrev pub path_severity : Text → Text
path_severity path =
    if has_prefix path (codes "/var/run/docker.sock")
      || has_prefix path (codes "/etc")
      || has_prefix path (codes "/root")
    then critical
    else high

abbrev pub host_path_findings : Pod → Volume → Option Text → List Finding
host_path_findings pod vol none = []
host_path_findings pod vol (some path) = mounts_host_path (path_severity path) vol path pod ∷ []

-- checkHostPaths
pub check_host_paths : Pod → List Finding
check_host_paths pod = gather (λ vol. host_path_findings pod vol vol.host_path) pod.volumes

-- dangerousCapabilities
abbrev pub is_dangerous : Text → Bool
is_dangerous cap =
    text_eq cap (codes "SYS_ADMIN")
    || text_eq cap (codes "NET_RAW")
    || text_eq cap (codes "SYS_PTRACE")
    || text_eq cap (codes "SYS_MODULE")
    || text_eq cap (codes "DAC_OVERRIDE")

abbrev added : Option (List Text) → List Text
added none = []
added (some caps) = caps

abbrev pub capabilities_of : Option SecurityContext → List Text
capabilities_of none = []
capabilities_of (some sc) = added sc.added_capabilities

-- The body of the loop of checkCapabilities.
abbrev pub capability_findings : Pod → Container → List Finding
capability_findings pod c =
    gather (λ cap. when (is_dangerous cap) (adds_capability c cap pod))
      (capabilities_of c.security_context)

-- checkCapabilities
pub check_capabilities : Pod → List Finding
check_capabilities pod = gather (capability_findings pod) (all_containers pod)

-- checkProcessSharing
pub check_process_sharing : Pod → List Finding
check_process_sharing pod = when (is_set pod.share_process_namespace) (shares_process_namespace pod)

abbrev pub checks : Pod → List Finding
checks pod =
    check_host_namespaces pod
    ++ check_host_paths pod
    ++ check_capabilities pod
    ++ check_process_sharing pod

-- Scan
unfoldable pub scan : List Pod → List Finding
unfolding check_host_namespaces check_host_paths check_capabilities check_process_sharing
scan pods = gather checks pods
