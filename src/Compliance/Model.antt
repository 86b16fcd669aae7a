-- ===== src/Compliance/Model.antt =====
-- The data of internal/compliance/framework.go. Fields that no code here sets (Description, Data,
-- RemediationGuidance, ClusterName) and the percentage, a function of two counts, are left out.
use aotanami.Prelude.{Text, List, ℕ}

-- Framework
pub data Framework : Type 0 where
  cis_k8s nist soc2 pci_dss hipaa iso27001 : Framework
  other_framework : Text → Framework

-- ControlStatus; `control_not_set` is the empty string.
pub data ControlStatus : Type 0 where
  control_not_set control_passed control_failed control_exception control_not_checked :
      ControlStatus

-- Evidence
pub record Evidence : Type 0 where
  pub type : Text
  pub description : Text
  pub resource_ref : Text
  pub timestamp : ℕ

-- Control
pub record Control : Type 0 where
  pub id : Text
  pub framework : Framework
  pub title : Text
  pub severity : Text
  pub status : ControlStatus
  pub evidence : List Evidence
  pub related_rule_types : List Text

-- ReportSummary
pub record ReportSummary : Type 0 where
  pub total_controls : ℕ
  pub passed : ℕ
  pub failed : ℕ
  pub exceptions : ℕ
  pub not_checked : ℕ

-- Report
pub record Report : Type 0 where
  pub framework : Framework
  pub generated_at : ℕ
  pub controls : List Control
  pub summary : ReportSummary
