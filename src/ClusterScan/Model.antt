-- ===== src/ClusterScan/Model.antt =====
-- api/v1alpha1/clusterscan_types.go and scanreport_types.go: the fields that the controller reads and
-- writes. An int32 is its bit pattern.
use aotanami.Prelude.{◌%◌, Bool, Option, ℕ, List, Text}
use aotanami.Conditions.{Condition}

-- ScanScope
pub record ScanScope : Type 0 where
  pub namespaces : List Text
  pub exclude_namespaces : List Text

-- ClusterScanSpec
pub record ClusterScanSpec : Type 0 where
  pub schedule : Text
  pub scanners : List Text
  pub scope : ScanScope
  pub compliance_frameworks : List Text
  pub suspend : Bool
  pub history_limit : ℕ

-- ClusterScanStatus; `none` for a time that is nil.
pub record ClusterScanStatus : Type 0 where
  pub phase : Text
  pub conditions : List Condition
  pub last_schedule_time : Option ℕ
  pub completed_at : Option ℕ
  pub findings_count : ℕ
  pub last_report_name : Text

pub record ClusterScan : Type 0 where
  pub name : Text
  pub namespace : Text
  pub generation : ℕ
  pub is_deleted : Bool
  pub has_finalizer : Bool
  pub spec : ClusterScanSpec
  pub status : ClusterScanStatus

-- AffectedResource
pub record AffectedResource : Type 0 where
  pub kind : Text
  pub namespace : Text
  pub name : Text

-- Finding
pub record ReportFinding : Type 0 where
  pub id : Text
  pub severity : Text
  pub category : Text
  pub title : Text
  pub description : Text
  pub resource : AffectedResource
  pub recommendation : Text

-- ScanSummary
pub record ScanSummary : Type 0 where
  pub total_findings : ℕ
  pub critical : ℕ
  pub high : ℕ
  pub medium : ℕ
  pub low : ℕ
  pub info : ℕ
  pub resources_scanned : ℕ

-- A ScanReport that the API lists.
pub record ScanReport : Type 0 where
  pub name : Text
  pub creation_timestamp : ℕ

-- The conversion to int32.
abbrev pub int32 : ℕ → ℕ
int32 n = n % 4294967296
