-- ===== src/Compliance/Controls.antt =====
-- The controls of the four frameworks, in internal/compliance/framework.go.
use aotanami.Compliance.Model.{Control, Framework, cis_k8s, soc2, pci_dss, hipaa, control_not_set}
use aotanami.Prelude.{Text, List, [], ◌∷◌, codes}

-- A control as the tables give it: without status and evidence.
abbrev control : Text → Framework → Text → Text → List Text → Control
control id framework title severity related = record {
  id = id;
  framework = framework;
  title = title;
  severity = severity;
  status = control_not_set;
  evidence = [];
  related_rule_types = related;
}

-- CISKubernetesBenchmark
abbrev pub cis_kubernetes_benchmark : List Control
cis_kubernetes_benchmark =
    control (codes "5.2.1") cis_k8s (codes "Minimize the admission of privileged containers")
      (codes "critical") (codes "container-security-context" ∷ codes "pod-security" ∷ [])
    ∷ control (codes "5.2.2") cis_k8s
        (codes
          "Minimize the admission of containers wishing to share the host process ID namespace")
        (codes "critical") (codes "pod-security" ∷ [])
    ∷ control (codes "5.2.3") cis_k8s
        (codes "Minimize the admission of containers wishing to share the host IPC namespace")
        (codes "high") (codes "pod-security" ∷ [])
    ∷ control (codes "5.2.4") cis_k8s
        (codes "Minimize the admission of containers wishing to share the host network namespace")
        (codes "critical") (codes "pod-security" ∷ codes "network-policy" ∷ [])
    ∷ control (codes "5.2.5") cis_k8s
        (codes "Minimize the admission of containers with allowPrivilegeEscalation") (codes "high")
        (codes "privilege-escalation" ∷ codes "container-security-context" ∷ [])
    ∷ control (codes "5.2.6") cis_k8s (codes "Minimize the admission of root containers")
        (codes "critical") (codes "privilege-escalation" ∷ codes "container-security-context" ∷ [])
    ∷ control (codes "5.2.7") cis_k8s
        (codes "Minimize the admission of containers with the NET_RAW capability") (codes "high")
        (codes "pod-security" ∷ [])
    ∷ control (codes "5.2.8") cis_k8s
        (codes "Minimize the admission of containers with added capabilities") (codes "high")
        (codes "pod-security" ∷ [])
    ∷ control (codes "5.2.9") cis_k8s
        (codes "Minimize the admission of containers with capabilities assigned") (codes "medium")
        (codes "pod-security" ∷ [])
    ∷ control (codes "5.4.1") cis_k8s
        (codes "Prefer using secrets as files over secrets as environment variables")
        (codes "medium") (codes "secrets-exposure" ∷ [])
    ∷ control (codes "5.4.2") cis_k8s (codes "Consider external secret storage") (codes "medium")
        (codes "secrets-exposure" ∷ [])
    ∷ control (codes "5.7.1") cis_k8s
        (codes "Create administrative boundaries between resources using namespaces")
        (codes "medium") (codes "rbac-audit" ∷ [])
    ∷ control (codes "5.7.2") cis_k8s
        (codes "Ensure that the seccomp profile is set to docker/default in pod definitions")
        (codes "medium") (codes "container-security-context" ∷ [])
    ∷ control (codes "5.7.3") cis_k8s (codes "Apply Security Context to pods and containers")
        (codes "high") (codes "container-security-context" ∷ [])
    ∷ control (codes "5.7.4") cis_k8s (codes "The default namespace should not be used")
        (codes "medium") (codes "rbac-audit" ∷ [])
    ∷ []

-- SOC2Controls
abbrev pub soc2_controls : List Control
soc2_controls =
    control (codes "CC6.1") soc2 (codes "Logical and Physical Access Controls") (codes "high") (
      codes "ciem-overprivileged-iam"
      ∷ codes "ciem-mfa-not-enforced"
      ∷ codes "ciem-root-access-keys"
      ∷ codes "ciem-unused-access-keys"
      ∷ codes "ciem-inactive-users"
      ∷ [])
    ∷ control (codes "CC6.2") soc2 (codes "Credentials and Authentication Mechanisms")
        (codes "high")
        (codes "ciem-mfa-not-enforced"
          ∷ codes "ciem-long-lived-service-keys"
          ∷ codes "ciem-root-access-keys"
          ∷ [])
    ∷ control (codes "CC6.3") soc2 (codes "Role-Based Access and Least Privilege") (codes "high") (
        codes "ciem-overprivileged-iam"
        ∷ codes "ciem-wildcard-permissions"
        ∷ codes "ciem-cross-account-trust"
        ∷ codes "cicd-overprivileged-codebuild"
        ∷ [])
    ∷ control (codes "CC6.6") soc2 (codes "Security Over External Threats") (codes "critical") (
        codes "network-ssh-open"
        ∷ codes "network-rdp-open"
        ∷ codes "network-db-ports-exposed"
        ∷ codes "network-default-sg-traffic"
        ∷ codes "network-unrestricted-egress"
        ∷ [])
    ∷ control (codes "CC6.7") soc2 (codes "Data Protection in Transit and at Rest") (codes "high") (
        codes "cspm-unencrypted-ebs"
        ∷ codes "cspm-rds-encryption"
        ∷ codes "dspm-s3-no-encryption"
        ∷ codes "dspm-dynamodb-encryption"
        ∷ codes "dspm-cloudwatch-unencrypted"
        ∷ codes "network-alb-not-https"
        ∷ codes "cicd-unencrypted-artifacts"
        ∷ [])
    ∷ control (codes "CC7.1") soc2 (codes "Detection of Changes and Anomalies") (codes "medium") (
        codes "cspm-cloudtrail-disabled"
        ∷ codes "cspm-vpc-flow-logs"
        ∷ codes "cicd-no-audit-logging"
        ∷ [])
    ∷ control (codes "CC7.2") soc2 (codes "Monitoring for Anomalous Activity") (codes "medium")
        (codes "cspm-cloudtrail-disabled" ∷ codes "cspm-vpc-flow-logs" ∷ [])
    ∷ control (codes "CC8.1") soc2 (codes "Change Management Controls") (codes "medium")
        (codes "cicd-no-manual-approval" ∷ codes "cspm-s3-versioning" ∷ [])
    ∷ control (codes "CC6.8") soc2 (codes "Prevention of Unauthorized Data Access")
        (codes "critical")
        (codes "cspm-public-s3-bucket"
          ∷ codes "dspm-s3-public-acls"
          ∷ codes "dspm-rds-public"
          ∷ codes "dspm-ebs-snapshots-public"
          ∷ [])
    ∷ control (codes "CC7.4") soc2 (codes "Security Incident Response") (codes "medium")
        (codes "cspm-cloudtrail-disabled" ∷ [])
    ∷ []

-- PCIDSSControls
abbrev pub pcidss_controls : List Control
pcidss_controls =
    control (codes "1.3.1") pci_dss (codes "Restrict Inbound Traffic to CDE") (codes "critical") (
      codes "network-ssh-open"
      ∷ codes "network-rdp-open"
      ∷ codes "network-db-ports-exposed"
      ∷ codes "network-default-sg-traffic"
      ∷ [])
    ∷ control (codes "1.3.2") pci_dss (codes "Restrict Outbound Traffic from CDE") (codes "high")
        (codes "network-unrestricted-egress" ∷ [])
    ∷ control (codes "2.2.7") pci_dss (codes "Encrypt Non-Console Administrative Access")
        (codes "high") (codes "network-alb-not-https" ∷ [])
    ∷ control (codes "3.4.1") pci_dss (codes "Render PAN Unreadable with Cryptography")
        (codes "critical")
        (codes "cspm-unencrypted-ebs"
          ∷ codes "cspm-rds-encryption"
          ∷ codes "dspm-s3-no-encryption"
          ∷ codes "dspm-dynamodb-encryption"
          ∷ [])
    ∷ control (codes "3.5.1") pci_dss (codes "Protect Cryptographic Keys") (codes "high")
        (codes "cspm-kms-rotation" ∷ codes "cspm-secrets-rotation" ∷ [])
    ∷ control (codes "6.3.1") pci_dss (codes "Identify Security Vulnerabilities") (codes "high") (
        codes "supplychain-ecr-critical-cves"
        ∷ codes "supplychain-third-party-cves"
        ∷ codes "supplychain-images-not-scanned"
        ∷ [])
    ∷ control (codes "7.2.1") pci_dss (codes "Restrict Access Based on Need-to-Know") (codes "high")
        (codes "ciem-overprivileged-iam" ∷ codes "ciem-wildcard-permissions" ∷ [])
    ∷ control (codes "8.3.1") pci_dss (codes "Enforce MFA for Administrative Access")
        (codes "critical") (codes "ciem-mfa-not-enforced" ∷ codes "ciem-root-access-keys" ∷ [])
    ∷ control (codes "10.2.1") pci_dss (codes "Audit Logging for All System Components")
        (codes "high")
        (codes "cspm-cloudtrail-disabled"
          ∷ codes "cspm-vpc-flow-logs"
          ∷ codes "cicd-no-audit-logging"
          ∷ [])
    ∷ control (codes "6.5.4") pci_dss (codes "Protect Secrets in Source Code") (codes "critical") (
        codes "cicd-hardcoded-secrets-repo"
        ∷ codes "cicd-secrets-plaintext-env"
        ∷ codes "supplychain-hardcoded-secrets-env"
        ∷ [])
    ∷ []

-- HIPAAControls
abbrev pub hipaa_controls : List Control
hipaa_controls =
    control (codes "164.312(a)(1)") hipaa (codes "Access Control — Unique User ID") (codes "high") (
      codes "ciem-overprivileged-iam"
      ∷ codes "ciem-mfa-not-enforced"
      ∷ codes "ciem-inactive-users"
      ∷ [])
    ∷ control (codes "164.312(a)(2)(i)") hipaa (codes "Unique User Identification") (codes "high")
        (codes "ciem-root-access-keys" ∷ codes "ciem-long-lived-service-keys" ∷ [])
    ∷ control (codes "164.312(a)(2)(iii)") hipaa (codes "Automatic Logoff") (codes "medium")
        (codes "ciem-unused-access-keys" ∷ codes "ciem-inactive-users" ∷ [])
    ∷ control (codes "164.312(a)(2)(iv)") hipaa (codes "Encryption and Decryption")
        (codes "critical")
        (codes "cspm-unencrypted-ebs"
          ∷ codes "cspm-rds-encryption"
          ∷ codes "dspm-s3-no-encryption"
          ∷ codes "dspm-dynamodb-encryption"
          ∷ codes "dspm-cloudwatch-unencrypted"
          ∷ [])
    ∷ control (codes "164.312(b)") hipaa (codes "Audit Controls") (codes "high") (
        codes "cspm-cloudtrail-disabled"
        ∷ codes "cspm-vpc-flow-logs"
        ∷ codes "cicd-no-audit-logging"
        ∷ [])
    ∷ control (codes "164.312(c)(1)") hipaa (codes "Integrity — ePHI Protection") (codes "critical")
        (codes "cspm-public-s3-bucket"
          ∷ codes "dspm-s3-public-acls"
          ∷ codes "dspm-rds-public"
          ∷ codes "dspm-ebs-snapshots-public"
          ∷ codes "cspm-s3-versioning"
          ∷ codes "dspm-s3-object-lock"
          ∷ [])
    ∷ control (codes "164.312(d)") hipaa (codes "Person or Entity Authentication")
        (codes "critical") (codes "ciem-mfa-not-enforced" ∷ codes "ciem-root-access-keys" ∷ [])
    ∷ control (codes "164.312(e)(1)") hipaa (codes "Transmission Security") (codes "high")
        (codes "network-alb-not-https" ∷ codes "network-ssh-open" ∷ codes "network-rdp-open" ∷ [])
    ∷ control (codes "164.308(a)(3)") hipaa (codes "Workforce Security") (codes "high") (
        codes "ciem-wildcard-permissions"
        ∷ codes "ciem-cross-account-trust"
        ∷ codes "cicd-overprivileged-codebuild"
        ∷ [])
    ∷ control (codes "164.308(a)(4)") hipaa (codes "Information Access Management") (codes "high")
        (codes "ciem-overprivileged-iam" ∷ codes "dspm-no-data-tags" ∷ [])
    ∷ []
