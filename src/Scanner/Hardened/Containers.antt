-- ===== src/Scanner/Hardened/Containers.antt =====
-- The scanners of a pod's containers find nothing exactly at pods that are set up with care.
use aotanami.Scanner.PrivilegeEscalation.{group_of_pod, user_of_pod}
use aotanami.Scanner.SecurityContexts.{non_root_of_pod}
use aotanami.Scanner.Hardened.Pointers.{
  is_zero_iff, not-is_set_iff, not_zero_iff, is_unset_or_iff, is_set-false_iff,
}
use aotanami.Scanner.Hardened.{
  IsRationed, HasPinnedImages, group_of_pod, user_of_pod, non_root_of_pod, HasContexts,
  all_containers, HasContext, IsPinned, IsBounded, IsUnescalated, IsUnprivileged,
}
use aotanami.Prelude.{
  refl, none, ◌⊎◌, text_eq_iff, codes, both_nil, ◌==◌, true, when_nil, arith, some, gather-nil_iff,
  ◌&&◌, All, ◌≢◌, ◌↔◌, false, not, [], ◌≡◌, Text, Bool, List, Option,
}
use aotanami.Scanner.Pod.{
  is_zero, is_unset_or, all_containers, is_set, SecurityContext, Container, Pod,
}
use aotanami.Scanner.PrivilegeEscalation as Escalation
use aotanami.Scanner.SecurityContexts as Contexts
use aotanami.Scanner.ResourceLimits as Limits
use aotanami.Scanner.ImagePinning as Images

is_unmasked_iff :
    (o : Option Text) → (Escalation.is_unmasked o ≡ false) ↔ (o ≢ some (codes "Unmasked"))
is_unmasked_iff none = ground arith
is_unmasked_iff (some mount) = ground (arith, text_eq_iff mount (codes "Unmasked"))

container_findings-IsUnprivileged :
    (pod : Pod) (c : Container) (o : Option SecurityContext)
    → (Escalation.container_findings pod c o ≡ []) ↔ IsUnprivileged o
container_findings-IsUnprivileged pod c none = ((λ e. tt), λ h. refl)
container_findings-IsUnprivileged pod c (some sc) =
    both_nil _ _
      (when_nil (is_zero sc.run_as_user) (Escalation.container_is_root_user c pod)
        (is_zero_iff sc.run_as_user))
      (when_nil (Escalation.is_unmasked sc.proc_mount) (Escalation.unmasks_proc c pod)
        (is_unmasked_iff sc.proc_mount))

escalation_checks-IsUnescalated : (pod : Pod) → (Escalation.checks pod ≡ []) ↔ IsUnescalated pod
unfolding Escalation.scan
escalation_checks-IsUnescalated pod =
    let token =
      when_nil (is_unset_or pod.automount_service_account_token) (Escalation.mounts_token pod)
        (is_unset_or_iff pod.automount_service_account_token) in
    let user =
      when_nil (is_zero (user_of_pod pod.security_context)) (Escalation.pod_is_root_user pod)
        (is_zero_iff (user_of_pod pod.security_context)) in
    let group =
      when_nil (is_zero (group_of_pod pod.security_context)) (Escalation.pod_is_root_group pod)
        (is_zero_iff (group_of_pod pod.security_context)) in
    let containers =
      gather-nil_iff (λ c. Escalation.container_findings pod c c.security_context)
        (λ c. IsUnprivileged c.security_context)
        (λ c. container_findings-IsUnprivileged pod c c.security_context) pod.containers in
    let (to, from) = both_nil _ _ (both_nil _ _ (both_nil _ _ token user) group) containers in
    (
      (λ e.
          let (((t, u), g), c) = to e in
          record { no_token = t; no_root_user = u; no_root_group = g; unprivileged = c }),
      λ h. from (((h.no_token, h.no_root_user), h.no_root_group), h.unprivileged),
    )

-- PrivilegeEscalationScanner finds nothing exactly when no pod mounts a token or is root.
pub privilege_escalation_iff :
    (pods : List Pod) → (Escalation.scan pods ≡ []) ↔ All IsUnescalated pods
unfolding Escalation.scan
privilege_escalation_iff pods =
    gather-nil_iff Escalation.checks IsUnescalated escalation_checks-IsUnescalated pods

non_root_iff :
    (o o' : Option Bool)
    → ((not (is_set o) && not (is_set o')) ≡ false) ↔ ((o ≡ some true) ⊎ (o' ≡ some true))
non_root_iff o o' = ground (arith, not-is_set_iff o, not-is_set_iff o')

check_container-HasContext :
    (pod : Pod) (c : Container) (o : Option SecurityContext)
    → (Contexts.check_container pod c o ≡ []) ↔ HasContext pod o
check_container-HasContext pod c none = ground arith
check_container-HasContext pod c (some sc) =
    let privileged =
      when_nil (is_set sc.privileged) (Contexts.is_privileged c pod)
        (is_set-false_iff sc.privileged) in
    let non_root =
      when_nil
        (not (is_set sc.run_as_non_root) && not (is_set (non_root_of_pod pod.security_context)))
        (Contexts.may_run_as_root c pod)
        (non_root_iff sc.run_as_non_root (non_root_of_pod pod.security_context)) in
    let read_only =
      when_nil (not (is_set sc.read_only_root_filesystem)) (Contexts.has_writable_root c pod)
        (not-is_set_iff sc.read_only_root_filesystem) in
    let escalation =
      when_nil (is_unset_or sc.allow_privilege_escalation) (Contexts.may_escalate c pod)
        (is_unset_or_iff sc.allow_privilege_escalation) in
    let (to, from) =
      both_nil _ _ (both_nil _ _ (both_nil _ _ privileged non_root) read_only) escalation in
    (
      (λ e.
          let (((p, n), r), s) = to e in
          record { not_privileged = p; non_root = n; read_only = r; no_escalation = s }),
      λ h. from (((h.not_privileged, h.non_root), h.read_only), h.no_escalation),
    )

-- ContainerSecurityContextScanner finds nothing exactly when every container is confined.
pub security_contexts_iff : (pods : List Pod) → (Contexts.scan pods ≡ []) ↔ All HasContexts pods
unfolding Contexts.scan
security_contexts_iff pods =
    gather-nil_iff Contexts.checks HasContexts
      (λ pod.
        gather-nil_iff (λ c. Contexts.check_container pod c c.security_context)
          (λ c. HasContext pod c.security_context)
          (λ c. check_container-HasContext pod c c.security_context) (all_containers pod))
      pods

check_container-IsBounded :
    (pod : Pod) (c : Container) → (Limits.check_container pod c ≡ []) ↔ IsBounded c
check_container-IsBounded pod c =
    let cpu =
      when_nil (c.cpu_request == 0) (Limits.has_no_cpu_request c pod)
        (not_zero_iff c.cpu_request) in
    let memory =
      when_nil (c.memory_request == 0) (Limits.has_no_memory_request c pod)
        (not_zero_iff c.memory_request) in
    let cpu_limit =
      when_nil (c.cpu_limit == 0) (Limits.has_no_cpu_limit c pod) (not_zero_iff c.cpu_limit) in
    let memory_limit =
      when_nil (c.memory_limit == 0) (Limits.has_no_memory_limit c pod)
        (not_zero_iff c.memory_limit) in
    let (to, from) = both_nil _ _ (both_nil _ _ (both_nil _ _ cpu memory) cpu_limit) memory_limit in
    (
      (λ e.
          let (((c, m), k), l) = to e in
          record { cpu_request = c; memory_request = m; cpu_limit = k; memory_limit = l }),
      λ h. from (((h.cpu_request, h.memory_request), h.cpu_limit), h.memory_limit),
    )

-- ResourceLimitsScanner finds nothing exactly when every container, init containers apart, is bounded.
pub resource_limits_iff : (pods : List Pod) → (Limits.scan pods ≡ []) ↔ All IsRationed pods
unfolding Limits.scan
resource_limits_iff pods =
    gather-nil_iff Limits.checks IsRationed
      (λ pod.
        gather-nil_iff (Limits.check_container pod) IsBounded (check_container-IsBounded pod)
          pod.containers)
      pods

check_container-IsPinned :
    (pod : Pod) (c : Container) → (Images.check_container pod c ≡ []) ↔ IsPinned c
unfolding Images.scan
check_container-IsPinned pod c = ground arith

-- ImagePinningScanner finds nothing exactly when every image is named by its digest.
pub image_pinning_iff : (pods : List Pod) → (Images.scan pods ≡ []) ↔ All HasPinnedImages pods
unfolding Images.scan
image_pinning_iff pods =
    gather-nil_iff Images.checks HasPinnedImages
      (λ pod.
        gather-nil_iff (Images.check_container pod) IsPinned (check_container-IsPinned pod)
          (all_containers pod))
      pods
