-- ===== src/ClusterScan/Reconcile/Reported.antt =====
-- What a scan that runs writes.
use aotanami.ClusterScan.History.{enforce_history_limit}
use aotanami.ClusterScan.Execute.Tally.{all_errors, all_found}
use aotanami.ClusterScan.Execute.{report_finding, execute_scan, ScanRun}
use aotanami.Scanner.Pod.{Pod}
use aotanami.ClusterScan.Reconcile.{
  enforce_history_limit, deletion_writes, complete_report, create_report, update_status, NewReport,
  ScanRun, resolve_target_pods, Run, Pod, running, ScanClock, ScanApi,
}
use aotanami.ClusterScan.Targets.{resolve_target_pods, ScopeApi}
use aotanami.Scanner.Registry.{Registry}
use aotanami.Prelude.{length, map, ◌++◌, ◌↔◌, [], codes, ◌∷◌, ◌≡◌, List, ℕ, Option, Text}
use aotanami.ClusterScan.Model.{int32, ScanReport, ClusterScan}

module _ (parse_standard : Text → Option (ℕ → ℕ)) (registry : Registry) (pod_api : ScopeApi)
    (api : ScanApi) (clock : ScanClock) where
  -- A scan that reports what the scanners found.
  pub record IsReported (scan : ClusterScan) (pods : List Pod) (name : Text) (run : Run)
      : Type 0 where
    pub started : ClusterScan
    pub report : NewReport
    pub pruned : List ScanReport
    pub final : ClusterScan
    pub writes :
        run.writes
        ≡ update_status started
          ∷ create_report report
          ∷ complete_report name
          ∷ (deletion_writes pruned ++ update_status final ∷ [])
    pub in_progress : started.status.phase ≡ codes "Running"
    pub findings : report.findings ≡ map report_finding (all_found registry pods scan.spec.scanners)
    pub counted : final.status.findings_count ≡ int32 (length report.findings)
    pub named : final.status.last_report_name ≡ name
    pub phase :
        (final.status.phase ≡ codes "Completed")
        ↔ (all_errors registry pods scan.spec.scanners ≡ [])

  abbrev scanned : ClusterScan → List Pod → ScanRun
  scanned scan pods =
      execute_scan registry (running parse_standard registry pod_api api clock scan) pods
