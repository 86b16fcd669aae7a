-- ===== src/ClusterScan/Execute.antt =====
-- executeScan and evaluateCompliance: the scanners that the scan names run over the pods, each finding
-- is put into the report and counted, and the findings are held against the CIS benchmark.
pub mod Counts
pub mod Tally
use aotanami.ClusterScan.Names.{truncate_runes}
use aotanami.Scanner.Pod.{Pod}
use aotanami.Compliance.Model.{cis_k8s, Framework}
use aotanami.Remediation.Model.{Finding}
use aotanami.Compliance.Evaluate.{evaluate_findings}
use aotanami.Scanner.Registry.{found, lookup, failed, ScanResult, Scanner, Registry}
use aotanami.Prelude.{
  none, ◌+◌, some, ◌||◌, quote, map, Option, codes, text_eq, when, Bool, [], ◌%◌, ◌∷◌,
  if◌then◌else◌, ◌++◌, ℕ, length, List, Text,
}
use aotanami.ClusterScan.Model.{int32, ReportFinding, ScanSummary, ClusterScan}

-- scanResult, with what executeScan sends to the recorder and to the event bus.
pub record ScanRun : Type 0 where
  pub findings : List ReportFinding
  pub summary : ScanSummary
  pub scan_errors : List Text
  pub warnings : List Text
  pub emitted : List Finding

-- The finding of the report.
abbrev pub report_finding : Finding → ReportFinding
report_finding f = record {
  id =
      f.rule_type
      ++ codes "-"
      ++ f.resource_namespace
      ++ codes "-"
      ++ f.resource_name
      ++ codes "-"
      ++ truncate_runes f.title 20;
  severity = f.severity;
  category = f.rule_type;
  title = f.title;
  description = f.description;
  resource = record {
    kind = f.resource_kind;
    namespace = f.resource_namespace;
    name = f.resource_name;
  };
  recommendation = f.recommendation;
}

-- The summary after a finding of the severity.
pub count_severity : Text → ScanSummary → ScanSummary
count_severity severity s =
    if text_eq severity (codes "critical")
    then record s { critical = int32 (s.critical + 1) }
    else if text_eq severity (codes "high")
    then record s { high = int32 (s.high + 1) }
    else if text_eq severity (codes "medium")
    then record s { medium = int32 (s.medium + 1) }
    else if text_eq severity (codes "low")
    then record s { low = int32 (s.low + 1) }
    else if text_eq severity (codes "info")
    then record s { info = int32 (s.info + 1) }
    else s

abbrev pub is_high_signal : Finding → Bool
is_high_signal f = text_eq f.severity (codes "critical") || text_eq f.severity (codes "high")

-- The loop over the findings of a scanner.
pub add_findings : List Finding → ScanRun → ScanRun
unfolding count_severity
add_findings [] run = run
add_findings (f ∷ fs) run = add_findings fs (record run {
  findings = run.findings ++ report_finding f ∷ [];
  summary = count_severity f.severity run.summary;
  emitted = run.emitted ++ when (is_high_signal f) f;
})

-- A scanner by its result.
pub add_result : Scanner → ScanResult → ScanRun → ScanRun
unfolding add_findings
add_result s (failed e) run = record run {
  scan_errors = run.scan_errors ++ (s.name ++ codes ": " ++ e) ∷ [];
  warnings = run.warnings ++ (codes "Scanner " ++ quote s.name ++ codes " failed: " ++ e) ∷ [];
}
add_result s (found fs) run = add_findings fs run

abbrev pub run_scanner : List Pod → Option Scanner → ScanRun → ScanRun
run_scanner pods none run = run
run_scanner pods (some s) run = add_result s (s.scan pods []) run

-- The loop over the scanners.
pub run_scanners : Registry → List Pod → List Text → ScanRun → ScanRun
run_scanners registry pods [] run = run
run_scanners registry pods (name ∷ names) run =
    run_scanners registry pods names (run_scanner pods (lookup name registry) run)

abbrev pub no_run : List Pod → ScanRun
no_run pods = record {
  findings = [];
  summary = record {
    total_findings = 0;
    critical = 0;
    high = 0;
    medium = 0;
    low = 0;
    info = 0;
    resources_scanned = int32 (length pods);
  };
  scan_errors = [];
  warnings = [];
  emitted = [];
}

abbrev pub with_total : ScanRun → ScanRun
with_total run = record run {
  summary = record run.summary { total_findings = int32 (length run.findings) };
}

-- executeScan
unfoldable pub execute_scan : Registry → ClusterScan → List Pod → ScanRun
unfolding run_scanners
execute_scan registry scan pods =
    with_total (run_scanners registry pods scan.spec.scanners (no_run pods))

-- ComplianceResult, without the pass rate, a percentage of the two counts.
pub record ComplianceResult : Type 0 where
  pub framework : Framework
  pub total_controls : ℕ
  pub failed_controls : ℕ

-- The finding that internal/compliance takes; it does not read the other two fields.
abbrev pub compliance_finding : ReportFinding → Finding
compliance_finding f = record {
  rule_type = f.category;
  severity = f.severity;
  title = f.title;
  description = [];
  resource_kind = f.resource.kind;
  resource_namespace = f.resource.namespace;
  resource_name = f.resource.name;
  recommendation = [];
}

-- evaluateCompliance, at a reading of the clock.
unfoldable pub evaluate_compliance : ℕ → List ReportFinding → List ComplianceResult
unfolding evaluate_findings
evaluate_compliance now findings =
    let report = evaluate_findings now cis_k8s (map compliance_finding findings) in
    record {
      framework = report.framework;
      total_controls = int32 report.summary.total_controls;
      failed_controls = int32 report.summary.failed;
    }
    ∷ []
