-- ===== src/Scanner/Pod.antt =====
-- The fields of a Kubernetes pod that internal/scanner reads. A nil pointer is `none`. A quantity is
-- its amount, 0 if it is missing, as `Cpu()` and `Memory()` return it.
use aotanami.Remediation.Model.{Finding}
use aotanami.Prelude.{
  ◌==◌, none, some, ◌||◌, false, text_eq, true, codes, ◌++◌, Option, Bool, Text, List, ℕ,
}

pub record SecurityContext : Type 0 where
  pub privileged : Option Bool
  pub run_as_non_root : Option Bool
  pub read_only_root_filesystem : Option Bool
  pub allow_privilege_escalation : Option Bool
  pub run_as_user : Option ℕ
  pub proc_mount : Option Text
  pub added_capabilities : Option (List Text)

-- The source of a variable; the field tells whether SecretKeyRef is set.
pub record EnvVarSource : Type 0 where
  pub secret_key_ref : Bool

pub record EnvVar : Type 0 where
  pub name : Text
  pub value : Text
  pub value_from : Option EnvVarSource

pub record Container : Type 0 where
  pub name : Text
  pub image : Text
  pub security_context : Option SecurityContext
  -- The names of the secrets of EnvFrom, `none` for an entry without SecretRef.
  pub env_from : List (Option Text)
  pub env : List EnvVar
  pub host_ports : List ℕ
  pub cpu_request : ℕ
  pub memory_request : ℕ
  pub cpu_limit : ℕ
  pub memory_limit : ℕ

pub record PodSecurityContext : Type 0 where
  pub run_as_non_root : Option Bool
  pub run_as_user : Option ℕ
  pub run_as_group : Option ℕ

pub record Volume : Type 0 where
  pub name : Text
  pub host_path : Option Text

pub record Pod : Type 0 where
  pub namespace : Text
  pub name : Text
  pub labels : List (Text × Text)
  pub is_running : Bool
  pub init_containers : List Container
  pub containers : List Container
  pub volumes : List Volume
  pub host_network : Bool
  pub host_pid : Bool
  pub host_ipc : Bool
  pub share_process_namespace : Option Bool
  pub automount_service_account_token : Option Bool
  pub security_context : Option PodSecurityContext
  pub service_account_name : Text
  pub deprecated_service_account : Text

-- `p != nil && *p`
abbrev pub is_set : Option Bool → Bool
is_set none = false
is_set (some b) = b

-- `p == nil || *p`
abbrev pub is_unset_or : Option Bool → Bool
is_unset_or none = true
is_unset_or (some b) = b

-- `p != nil && *p == 0`
abbrev pub is_zero : Option ℕ → Bool
is_zero none = false
is_zero (some n) = n == 0

-- The severities.
abbrev pub critical : Text
critical = codes "critical"

abbrev pub high : Text
high = codes "high"

abbrev pub medium : Text
medium = codes "medium"

abbrev pub low : Text
low = codes "low"

-- A finding about a pod.
abbrev pub pod_finding : Text → Text → Text → Text → Text → Pod → Finding
pod_finding rule_type severity title description recommendation pod = record {
  rule_type = rule_type;
  severity = severity;
  title = title;
  description = description;
  resource_kind = codes "Pod";
  resource_namespace = pod.namespace;
  resource_name = pod.name;
  recommendation = recommendation;
}

-- The init containers, then the others.
abbrev pub all_containers : Pod → List Container
all_containers pod = pod.init_containers ++ pod.containers

-- isSystemNamespace of network_policy.go.
unfoldable pub is_system_namespace : Text → Bool
is_system_namespace ns =
    text_eq ns (codes "kube-system")
    || text_eq ns (codes "kube-public")
    || text_eq ns (codes "kube-node-lease")
    || text_eq ns (codes "zelyo-system")
