-- ===== src/Scanner/Hardened.antt =====
-- What the scanners ask of a pod, said of its fields.
pub mod Pointers
pub mod Hosts
pub mod Containers
pub mod Accounts
use aotanami.Scanner.SecurityContexts.{non_root_of_pod}
use aotanami.Scanner.RbacAudit.{default_sa, dangerous_sa_names, sa_name_of}
use aotanami.Scanner.PrivilegeEscalation.{group_of_pod, user_of_pod}
use aotanami.Scanner.PodSecurity.{capabilities_of, is_dangerous}
use aotanami.Scanner.SecretsExposure.{is_secret_key_ref, is_sensitive}
use aotanami.Prelude.{
  [], ◌⊎◌, codes, to_lower, true, false, contains, none, some, All, ◌≢◌, Option, Text, ◌≡◌, ℕ,
}
use aotanami.Scanner.Pod.{
  all_containers, SecurityContext, is_system_namespace, EnvVar, Pod, Container,
}

-- The pod shares nothing with its host, and its containers add no dangerous capability.
pub record IsIsolated (pod : Pod) : Type 0 where
  pub own_network : pod.host_network ≡ false
  pub own_pid : pod.host_pid ≡ false
  pub own_ipc : pod.host_ipc ≡ false
  pub no_host_paths : All (λ vol. vol.host_path ≡ none) pod.volumes
  pub few_capabilities :
      All
        (λ c. All (λ cap. is_dangerous cap ≡ false) (capabilities_of c.security_context))
        (all_containers pod)
  pub own_processes : pod.share_process_namespace ≢ some true

-- The container is not set to be root, and its /proc is masked.
abbrev pub IsUnprivileged : Option SecurityContext → Type 0
IsUnprivileged none = Unit
IsUnprivileged (some sc) = (sc.run_as_user ≢ some 0) × (sc.proc_mount ≢ some (codes "Unmasked"))

-- The pod mounts no token and is not set to be root.
pub record IsUnescalated (pod : Pod) : Type 0 where
  pub no_token : pod.automount_service_account_token ≡ some false
  pub no_root_user : user_of_pod pod.security_context ≢ some 0
  pub no_root_group : group_of_pod pod.security_context ≢ some 0
  pub unprivileged : All (λ c. IsUnprivileged c.security_context) pod.containers

-- The container has a context that takes its rights away.
pub record IsConfined (pod : Pod) (sc : SecurityContext) : Type 0 where
  pub not_privileged : sc.privileged ≢ some true
  pub non_root :
      (sc.run_as_non_root ≡ some true) ⊎ (non_root_of_pod pod.security_context ≡ some true)
  pub read_only : sc.read_only_root_filesystem ≡ some true
  pub no_escalation : sc.allow_privilege_escalation ≡ some false

abbrev pub HasContext : Pod → Option SecurityContext → Type 0
HasContext pod none = ⊥
HasContext pod (some sc) = IsConfined pod sc

-- The container says what it needs and what it may use.
pub record IsBounded (c : Container) : Type 0 where
  pub cpu_request : c.cpu_request ≢ 0
  pub memory_request : c.memory_request ≢ 0
  pub cpu_limit : c.cpu_limit ≢ 0
  pub memory_limit : c.memory_limit ≢ 0

-- The variable does not carry a secret: its name is harmless, or it has neither a value of its own nor
-- a secret as its source.
abbrev pub IsHarmless : EnvVar → Type 0
IsHarmless env =
    (is_sensitive env.name ≡ false)
    ⊎ (((env.value ≡ []) ⊎ (env.value_from ≢ none)) × (is_secret_key_ref env.value_from ≡ false))

-- No secret is in the environment.
pub record IsDiscreet (c : Container) : Type 0 where
  pub no_secret_refs : All (λ secret. secret ≡ none) c.env_from
  pub harmless : All IsHarmless c.env

-- The pod is one of the system, or can be selected by its labels and takes no port of its host.
abbrev pub IsSegmented : Pod → Type 0
IsSegmented pod =
    (is_system_namespace pod.namespace ≡ true)
    ⊎ ((pod.labels ≢ []) × All (λ c. All (λ port. port ≡ 0) c.host_ports) pod.containers)

-- No pattern is in the name.
abbrev pub IsModest : Text → Type 0
IsModest sa_name = All (λ pattern. contains (to_lower sa_name) pattern ≡ false) dangerous_sa_names

-- The pod is one of the system, or has a service account of its own with a modest name.
abbrev pub HasOwnAccount : Pod → Type 0
HasOwnAccount pod =
    (is_system_namespace pod.namespace ≡ true)
    ⊎ ((sa_name_of pod ≢ default_sa)
        × IsModest (sa_name_of pod)
        × ((pod.deprecated_service_account ≡ [])
            ⊎ (pod.deprecated_service_account ≡ sa_name_of pod)))

-- The image is named by its digest.
abbrev pub IsPinned : Container → Type 0
IsPinned c = contains c.image (codes "@sha256:") ≡ true

-- Every container of the pod has such a context.
abbrev pub HasContexts : Pod → Type 0
HasContexts pod = All (λ c. HasContext pod c.security_context) (all_containers pod)

-- Every container but the init containers is bounded.
abbrev pub IsRationed : Pod → Type 0
IsRationed pod = All IsBounded pod.containers

-- Every image of the pod is pinned.
abbrev pub HasPinnedImages : Pod → Type 0
HasPinnedImages pod = All IsPinned (all_containers pod)

-- No container of the pod has a secret in its environment.
abbrev pub KeepsSecrets : Pod → Type 0
KeepsSecrets pod = All IsDiscreet (all_containers pod)
