-- ===== src/Scanner/Registry.antt =====
-- internal/scanner/scanner.go: the registry of the scanners, a map from rule types, and the default
-- one. A panic is `none`.
pub mod Defaults
pub mod Reports
use aotanami.Scanner.PodSecurity.{pod_security}
use aotanami.Scanner.PrivilegeEscalation.{privilege_escalation}
use aotanami.Scanner.NetworkPolicy.{network_policy}
use aotanami.Scanner.RbacAudit.{rbac_audit}
use aotanami.Scanner.Pod.{Pod}
use aotanami.Scanner.SecretsExposure.{secrets_exposure}
use aotanami.Scanner.ResourceLimits.{resource_limits}
use aotanami.Scanner.ImagePinning.{image_vulnerability}
use aotanami.Remediation.Model.{Finding}
use aotanami.Scanner.SecurityContexts.{container_security_context}
use aotanami.Prelude.{
  ◌>>=◌, text_eq, if◌then◌else◌, ◌++◌, ◌∷◌, none, some, Option, codes, Text, [], List,
}
use aotanami.Scanner.SecurityContexts
use aotanami.Scanner.ResourceLimits
use aotanami.Scanner.ImagePinning
use aotanami.Scanner.PodSecurity
use aotanami.Scanner.PrivilegeEscalation
use aotanami.Scanner.SecretsExposure
use aotanami.Scanner.NetworkPolicy
use aotanami.Scanner.RbacAudit

-- The result of Scan: the findings, or an error.
pub data ScanResult : Type 0 where
  found : List Finding → ScanResult
  failed : Text → ScanResult

-- The Scanner interface.
pub record Scanner : Type 0 where
  pub name : Text
  pub rule_type : Text
  pub scan : List Pod → List (Text × Text) → ScanResult

-- A map, as the list of its values in the order in which they came.
abbrev pub Registry : Type 0
Registry = List Scanner

-- NewRegistry
abbrev pub new_registry : Registry
new_registry = []

-- Get
unfoldable pub lookup : Text → Registry → Option Scanner
lookup rule_type [] = none
lookup rule_type (s ∷ r) =
    let rest = lookup rule_type r in if text_eq s.rule_type rule_type then some s else rest

abbrev pub or_panic : Scanner → Registry → Option Scanner → Option Registry
or_panic s r none = some (r ++ s ∷ [])
or_panic s r (some present) = none

-- Register
unfoldable pub register : Scanner → Registry → Option Registry
unfolding lookup
register s r = or_panic s r (lookup s.rule_type r)

-- The built-in scanners.
abbrev pub container_security_context_scanner : Scanner
container_security_context_scanner = record {
  name = codes "Container Security Context";
  rule_type = container_security_context;
  scan = λ pods params. found (SecurityContexts.scan pods);
}

abbrev pub resource_limits_scanner : Scanner
resource_limits_scanner = record {
  name = codes "Resource Limits";
  rule_type = resource_limits;
  scan = λ pods params. found (ResourceLimits.scan pods);
}

abbrev pub image_pinning_scanner : Scanner
image_pinning_scanner = record {
  name = codes "Image Pinning";
  rule_type = image_vulnerability;
  scan = λ pods params. found (ImagePinning.scan pods);
}

abbrev pub pod_security_scanner : Scanner
pod_security_scanner = record {
  name = codes "Pod Security";
  rule_type = pod_security;
  scan = λ pods params. found (PodSecurity.scan pods);
}

abbrev pub privilege_escalation_scanner : Scanner
privilege_escalation_scanner = record {
  name = codes "Privilege Escalation";
  rule_type = privilege_escalation;
  scan = λ pods params. found (PrivilegeEscalation.scan pods);
}

abbrev pub secrets_exposure_scanner : Scanner
secrets_exposure_scanner = record {
  name = codes "Secrets Exposure";
  rule_type = secrets_exposure;
  scan = λ pods params. found (SecretsExposure.scan pods);
}

abbrev pub network_policy_scanner : Scanner
network_policy_scanner = record {
  name = codes "Network Policy";
  rule_type = network_policy;
  scan = λ pods params. found (NetworkPolicy.scan pods);
}

abbrev pub rbac_audit_scanner : Scanner
rbac_audit_scanner = record {
  name = codes "RBAC Audit";
  rule_type = rbac_audit;
  scan = λ pods params. found (RbacAudit.scan pods);
}

-- DefaultRegistry
unfoldable pub default_registry : Option Registry
unfolding register
default_registry = do
  r ← register container_security_context_scanner new_registry
  r ← register resource_limits_scanner r
  r ← register image_pinning_scanner r
  r ← register pod_security_scanner r
  r ← register privilege_escalation_scanner r
  r ← register secrets_exposure_scanner r
  r ← register network_policy_scanner r
  register rbac_audit_scanner r
