-- ===== src/Scanner/ResourceLimits.antt =====
-- internal/scanner/resource_limits.go: ResourceLimitsScanner.
use aotanami.Remediation.Model.{Finding}
use aotanami.Scanner.Pod.{medium, high, pod_finding, Pod, Container}
use aotanami.Prelude.{◌==◌, ◌++◌, when, gather, codes, List, Text, utf8, quote}

abbrev pub resource_limits : Text
resource_limits = codes "resource-limits"

abbrev pub has_no_cpu_request : Container → Pod → Finding
has_no_cpu_request container pod =
    pod_finding resource_limits medium
      (utf8 "Container " ++ quote container.name ++ utf8 " has no CPU request")
      (utf8
        "No CPU request is defined. The scheduler cannot make optimal placement decisions without resource requests.")
      (utf8
        "Set resources.requests.cpu to a value that reflects the container's expected CPU usage.")
      pod

abbrev pub has_no_memory_request : Container → Pod → Finding
has_no_memory_request container pod =
    pod_finding resource_limits medium
      (utf8 "Container " ++ quote container.name ++ utf8 " has no memory request")
      (utf8
        "No memory request is defined. The scheduler cannot make optimal placement decisions without resource requests.")
      (utf8
        "Set resources.requests.memory to a value that reflects the container's expected memory usage.")
      pod

abbrev pub has_no_cpu_limit : Container → Pod → Finding
has_no_cpu_limit container pod =
    pod_finding resource_limits high
      (utf8 "Container " ++ quote container.name ++ utf8 " has no CPU limit")
      (utf8
        "No CPU limit is defined. The container can consume unbounded CPU, potentially starving other workloads.")
      (utf8 "Set resources.limits.cpu to prevent unbounded CPU consumption.") pod

abbrev pub has_no_memory_limit : Container → Pod → Finding
has_no_memory_limit container pod =
    pod_finding resource_limits high
      (utf8 "Container " ++ quote container.name ++ utf8 " has no memory limit")
      (utf8
        "No memory limit is defined. The container can consume unbounded memory, leading to OOMKill of other pods.")
      (utf8 "Set resources.limits.memory to prevent unbounded memory consumption.") pod

-- The body of the loop over the containers.
abbrev pub check_container : Pod → Container → List Finding
check_container pod c =
    when (c.cpu_request == 0) (has_no_cpu_request c pod)
    ++ when (c.memory_request == 0) (has_no_memory_request c pod)
    ++ when (c.cpu_limit == 0) (has_no_cpu_limit c pod)
    ++ when (c.memory_limit == 0) (has_no_memory_limit c pod)

abbrev pub checks : Pod → List Finding
checks pod = gather (check_container pod) pod.containers

-- Scan
unfoldable pub scan : List Pod → List Finding
scan pods = gather checks pods
