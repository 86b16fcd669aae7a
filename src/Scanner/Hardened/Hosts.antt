-- ===== src/Scanner/Hardened/Hosts.antt =====
-- PodSecurityScanner finds nothing exactly at isolated pods.
use aotanami.Scanner.Hardened.Pointers.{is_set-false_iff, false_iff}
use aotanami.Scanner.Hardened.{all_containers, capabilities_of, is_dangerous, IsIsolated}
use aotanami.Prelude.{
  both_nil, when, some, false, when_nil, gather-nil_iff, arith, All, none, ◌↔◌, [], Text, ◌≡◌,
  Option, List,
}
use aotanami.Scanner.Pod.{is_set, all_containers, Pod, Container, Volume}
use aotanami.Scanner.PodSecurity.{
  shares_process_namespace, uses_host_ipc, adds_capability, uses_host_pid, capabilities_of,
  uses_host_network, is_dangerous, host_path_findings, capability_findings, scan, checks,
}

host_path_findings-nil_iff :
    (pod : Pod) (vol : Volume) (o : Option Text) → (host_path_findings pod vol o ≡ []) ↔ (o ≡ none)
host_path_findings-nil_iff pod vol none = ground arith
host_path_findings-nil_iff pod vol (some path) = ground arith

capability_findings-nil_iff :
    (pod : Pod) (c : Container)
    → (capability_findings pod c ≡ [])
      ↔ All (λ cap. is_dangerous cap ≡ false) (capabilities_of c.security_context)
capability_findings-nil_iff pod c =
    gather-nil_iff (λ cap. when (is_dangerous cap) (adds_capability c cap pod))
      (λ cap. is_dangerous cap ≡ false)
      (λ cap.
        when_nil (is_dangerous cap) (adds_capability c cap pod) (false_iff (is_dangerous cap)))
      (capabilities_of c.security_context)

checks-IsIsolated : (pod : Pod) → (checks pod ≡ []) ↔ IsIsolated pod
unfolding scan
checks-IsIsolated pod =
    let network = when_nil pod.host_network (uses_host_network pod) (false_iff pod.host_network) in
    let pid = when_nil pod.host_pid (uses_host_pid pod) (false_iff pod.host_pid) in
    let ipc = when_nil pod.host_ipc (uses_host_ipc pod) (false_iff pod.host_ipc) in
    let paths =
      gather-nil_iff (λ vol. host_path_findings pod vol vol.host_path) (λ vol. vol.host_path ≡ none)
        (λ vol. host_path_findings-nil_iff pod vol vol.host_path) pod.volumes in
    let capabilities =
      gather-nil_iff (capability_findings pod)
        (λ c. All (λ cap. is_dangerous cap ≡ false) (capabilities_of c.security_context))
        (capability_findings-nil_iff pod) (all_containers pod) in
    let sharing =
      when_nil (is_set pod.share_process_namespace) (shares_process_namespace pod)
        (is_set-false_iff pod.share_process_namespace) in
    let (to, from) =
      both_nil _ _
        (both_nil _ _ (both_nil _ _ (both_nil _ _ (both_nil _ _ network pid) ipc) paths)
          capabilities)
        sharing in
    (
      (λ e.
          let (((((n, p), i), v), c), s) = to e in
          record {
            own_network = n;
            own_pid = p;
            own_ipc = i;
            no_host_paths = v;
            few_capabilities = c;
            own_processes = s;
          }),
      λ h. from (
        ((((h.own_network, h.own_pid), h.own_ipc), h.no_host_paths), h.few_capabilities),
        h.own_processes,
      ),
    )

-- PodSecurityScanner finds nothing exactly when every pod is isolated.
pub pod_security_iff : (pods : List Pod) → (scan pods ≡ []) ↔ All IsIsolated pods
unfolding scan
pod_security_iff pods = gather-nil_iff checks IsIsolated checks-IsIsolated pods
