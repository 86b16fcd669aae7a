-- ===== src/Scanner/NetworkPolicy.antt =====
-- internal/scanner/network_policy.go: NetworkPolicyScanner.
use aotanami.Remediation.Model.{Finding}
use aotanami.Scanner.Pod.{is_system_namespace, high, medium, pod_finding, Pod, Container}
use aotanami.Prelude.{
  ◌==◌, length, [], ltb, decimal, when, ◌++◌, if◌then◌else◌, gather, ℕ, List, codes, Text, utf8,
  quote,
}

abbrev pub network_policy : Text
network_policy = codes "network-policy"

abbrev pub has_no_labels : Pod → Finding
has_no_labels pod =
    pod_finding network_policy medium (utf8 "Pod has no labels for network policy targeting")
      (utf8
        "This pod has no labels, making it impossible to target with NetworkPolicy podSelector rules. It may have unrestricted network access.")
      (utf8
        "Add appropriate labels to the pod and create NetworkPolicies that restrict ingress and egress traffic.")
      pod

abbrev pub uses_host_port : Container → ℕ → Pod → Finding
uses_host_port container port pod =
    pod_finding network_policy high
      (utf8 "Container " ++ quote container.name ++ utf8 " uses hostPort " ++ decimal port)
      (utf8 "hostPort "
        ++ decimal port
        ++ utf8 " is set on container "
        ++ quote container.name
        ++ utf8 ". Host ports bypass Kubernetes NetworkPolicies and expose the port on every node.")
      (utf8 "Use a Service of type ClusterIP or LoadBalancer instead of hostPort.") pod

-- The body of the loop over the containers.
abbrev pub check_container : Pod → Container → List Finding
check_container pod c = gather (λ port. when (ltb 0 port) (uses_host_port c port pod)) c.host_ports

-- The body of the loop over the pods.
abbrev pub checks : Pod → List Finding
checks pod =
    if is_system_namespace pod.namespace
    then []
    else when (length pod.labels == 0) (has_no_labels pod)
      ++ gather (check_container pod) pod.containers

-- Scan
unfoldable pub scan : List Pod → List Finding
scan pods = gather checks pods
