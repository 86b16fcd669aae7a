-- ===== src/Scanner/Registry/Reports.antt =====
-- What a finding of a built-in scanner says: its rule type, the pod that it is about, and one of four
-- severities.
use aotanami.Scanner.PrivilegeEscalation.{privilege_escalation}
use aotanami.Scanner.PodSecurity.{
  path_severity, capability_findings, host_path_findings, pod_security,
}
use aotanami.Scanner.RbacAudit.{broad_findings, rbac_audit}
use aotanami.Scanner.Registry.{failed, found, ScanResult}
use aotanami.Scanner.SecurityContexts.{container_security_context}
use aotanami.Scanner.Registry.Defaults.{built_in}
use aotanami.Scanner.SecretsExposure.{is_sensitive, secrets_exposure}
use aotanami.Scanner.NetworkPolicy.{network_policy}
use aotanami.Scanner.SecurityContexts as Contexts
use aotanami.Scanner.ResourceLimits as Limits
use aotanami.Scanner.ImagePinning as Images
use aotanami.Scanner.PodSecurity as Hosts
use aotanami.Scanner.PrivilegeEscalation as Escalation
use aotanami.Scanner.SecretsExposure as Secrets
use aotanami.Scanner.NetworkPolicy as Network
use aotanami.Scanner.RbacAudit as Rbac
use aotanami.Scanner.Pod.{
  is_system_namespace, SecurityContext, EnvVar, Volume, medium, high, low, critical, Pod, Container,
  pod_finding,
}
use aotanami.Prelude.{
  ◌||◌, has_prefix, none, Any, Bool-cases, some, All-gather-Any, Option, Text, All, refl, inl, inr,
  List, Bool, All-when, All-gather, All-append, when, codes, ◌⊎◌, ◌≡◌,
}
use aotanami.Remediation.Model.{Finding}
use aotanami.Scanner.ResourceLimits.{resource_limits}
use aotanami.Scanner.ImagePinning.{image_vulnerability}

-- The severities that the scanners use.
abbrev pub IsGraded : Text → Type 0
IsGraded severity =
    (severity ≡ critical) ⊎ (severity ≡ high) ⊎ (severity ≡ medium) ⊎ (severity ≡ low)

-- The finding is of this rule type, about this pod, and graded.
pub record IsReport (rule_type : Text) (pod : Pod) (f : Finding) : Type 0 where
  pub by_rule : f.rule_type ≡ rule_type
  pub kind : f.resource_kind ≡ codes "Pod"
  pub in_namespace : f.resource_namespace ≡ pod.namespace
  pub of_name : f.resource_name ≡ pod.name
  pub graded : IsGraded f.severity

module _ (rule_type severity title description recommendation : Text) (pod : Pod) where
  pod_finding-IsReport :
      IsGraded severity
      → IsReport rule_type pod (pod_finding rule_type severity title description recommendation pod)
  pod_finding-IsReport graded = record {
    by_rule = refl;
    kind = refl;
    in_namespace = refl;
    of_name = refl;
    graded = graded;
  }

-- A finding that is added under a test.
when-IsReport :
    (rule_type : Text) (pod : Pod) (b : Bool) (severity title description recommendation : Text)
    → IsGraded severity
    → All
        (IsReport rule_type pod)
        (when b (pod_finding rule_type severity title description recommendation pod))
when-IsReport rule_type pod b severity title description recommendation graded =
    All-when _ b _
      (pod_finding-IsReport rule_type severity title description recommendation pod graded)

critical-IsGraded : IsGraded critical
critical-IsGraded = inl refl

high-IsGraded : IsGraded high
high-IsGraded = inr (inl refl)

medium-IsGraded : IsGraded medium
medium-IsGraded = inr (inr (inl refl))

low-IsGraded : IsGraded low
low-IsGraded = inr (inr (inr refl))

ruleset graded = (critical-IsGraded, high-IsGraded, medium-IsGraded, low-IsGraded)

-- A list of findings about one pod.
abbrev Reports : Text → Pod → List Finding → Type 0
Reports rule_type pod fs = All (IsReport rule_type pod) fs

contexts_container-IsReport :
    (pod : Pod) (c : Container) (o : Option SecurityContext)
    → Reports container_security_context pod (Contexts.check_container pod c o)
contexts_container-IsReport pod c none = (pod_finding-IsReport _ high _ _ _ pod high-IsGraded, tt)
contexts_container-IsReport pod c (some sc) = search (All-append, when-IsReport, graded)

contexts-IsReport : (pod : Pod) → Reports container_security_context pod (Contexts.checks pod)
contexts-IsReport pod = search (All-gather, contexts_container-IsReport)

limits_container-IsReport :
    (pod : Pod) (c : Container) → Reports resource_limits pod (Limits.check_container pod c)
limits_container-IsReport pod c = search (All-append, when-IsReport, graded)

limits-IsReport : (pod : Pod) → Reports resource_limits pod (Limits.checks pod)
limits-IsReport pod = search (All-gather, limits_container-IsReport)

images_container-IsReport :
    (pod : Pod) (c : Container) → Reports image_vulnerability pod (Images.check_container pod c)
images_container-IsReport pod c = search (All-append, when-IsReport, graded)

images-IsReport : (pod : Pod) → Reports image_vulnerability pod (Images.checks pod)
images-IsReport pod = search (All-gather, images_container-IsReport)

path_severity-IsGraded : (path : Text) → IsGraded (path_severity path)
path_severity-IsGraded path =
    elim (Bool-cases (
      has_prefix path (codes "/var/run/docker.sock")
      || has_prefix path (codes "/etc")
      || has_prefix path (codes "/root"))) [
        | inl e ↦ rw e critical-IsGraded
        | inr e ↦ rw e high-IsGraded
      ]

host_path-IsReport :
    (pod : Pod) (vol : Volume) (o : Option Text)
    → Reports pod_security pod (host_path_findings pod vol o)
host_path-IsReport pod vol none = tt
host_path-IsReport pod vol (some path) =
    (pod_finding-IsReport _ (path_severity path) _ _ _ pod (path_severity-IsGraded path), tt)

capabilities-IsReport :
    (pod : Pod) (c : Container) → Reports pod_security pod (capability_findings pod c)
capabilities-IsReport pod c = search (All-gather, when-IsReport, graded)

hosts-IsReport : (pod : Pod) → Reports pod_security pod (Hosts.checks pod)
unfolding Hosts.scan
hosts-IsReport pod =
    search
      (All-append, All-gather, host_path-IsReport, capabilities-IsReport, when-IsReport, graded)
      depth 8

escalation_container-IsReport :
    (pod : Pod) (c : Container) (o : Option SecurityContext)
    → Reports privilege_escalation pod (Escalation.container_findings pod c o)
escalation_container-IsReport pod c none = tt
escalation_container-IsReport pod c (some sc) = search (All-append, when-IsReport, graded)

escalation-IsReport : (pod : Pod) → Reports privilege_escalation pod (Escalation.checks pod)
unfolding Escalation.scan
escalation-IsReport pod =
    search (All-append, All-gather, escalation_container-IsReport, when-IsReport, graded)

env_from-IsReport :
    (pod : Pod) (c : Container) (o : Option Text)
    → Reports secrets_exposure pod (Secrets.env_from_findings pod c o)
env_from-IsReport pod c none = tt
env_from-IsReport pod c (some secret) =
    (pod_finding-IsReport _ medium _ _ _ pod medium-IsGraded, tt)

env-IsReport :
    (pod : Pod) (c : Container) (env : EnvVar)
    → Reports secrets_exposure pod (Secrets.env_findings pod c env)
env-IsReport pod c env = elim (Bool-cases (is_sensitive env.name)) [
  | inl e ↦ rw e (search (All-append, when-IsReport, graded))
  | inr e ↦ rw e tt
]

secrets_container-IsReport :
    (pod : Pod) (c : Container) → Reports secrets_exposure pod (Secrets.check_container pod c)
secrets_container-IsReport pod c = search (All-append, All-gather, env_from-IsReport, env-IsReport)

secrets-IsReport : (pod : Pod) → Reports secrets_exposure pod (Secrets.checks pod)
secrets-IsReport pod = search (All-gather, secrets_container-IsReport)

network_container-IsReport :
    (pod : Pod) (c : Container) → Reports network_policy pod (Network.check_container pod c)
network_container-IsReport pod c = search (All-gather, when-IsReport, graded)

network-IsReport : (pod : Pod) → Reports network_policy pod (Network.checks pod)
network-IsReport pod = elim (Bool-cases (is_system_namespace pod.namespace)) [
  | inl e ↦ rw e tt
  | inr e ↦
      rw e (search (All-append, All-gather, network_container-IsReport, when-IsReport, graded))
]

broad-IsReport :
    (pod : Pod) (sa_name : Text) (o : Option Text)
    → Reports rbac_audit pod (broad_findings pod sa_name o)
broad-IsReport pod sa_name none = tt
broad-IsReport pod sa_name (some pattern) =
    (pod_finding-IsReport _ high _ _ _ pod high-IsGraded, tt)

rbac-IsReport : (pod : Pod) → Reports rbac_audit pod (Rbac.checks pod)
rbac-IsReport pod = elim (Bool-cases (is_system_namespace pod.namespace)) [
  | inl e ↦ rw e tt
  | inr e ↦ rw e (search (All-append, broad-IsReport, when-IsReport, graded))
]

-- What the findings of a scanner are about.
abbrev pub ReportsOn : List Pod → Text → ScanResult → Type 0
ReportsOn pods rule_type (found fs) = All (λ f. Any (λ pod. IsReport rule_type pod f) pods) fs
ReportsOn pods rule_type (failed e) = ⊥

-- A built-in scanner does not fail, and each of its findings carries its rule type, one of the four
-- severities, and the kind, namespace and name of a pod that was scanned.
pub built_in-ReportsOn :
    (pods : List Pod) (params : List (Text × Text))
    → All (λ s. ReportsOn pods s.rule_type (s.scan pods params)) built_in
unfolding Contexts.scan Limits.scan Images.scan Hosts.scan Escalation.scan Secrets.scan Network.scan
    Rbac.scan
built_in-ReportsOn pods params = (
  All-gather-Any _ _ contexts-IsReport pods,
  (
    All-gather-Any _ _ limits-IsReport pods,
    (
      All-gather-Any _ _ images-IsReport pods,
      (
        All-gather-Any _ _ hosts-IsReport pods,
        (
          All-gather-Any _ _ escalation-IsReport pods,
          (
            All-gather-Any _ _ secrets-IsReport pods,
            (All-gather-Any _ _ network-IsReport pods, (All-gather-Any _ _ rbac-IsReport pods, tt)),
          ),
        ),
      ),
    ),
  ),
)
