-- ===== src/ClusterScan/Reconcile.antt =====
-- Reconcile of the ClusterScan controller with createScanReport, updateFinalStatus and
-- handleTargetResolutionError. What the API answers to the calls of one run is a parameter, and the run
-- gives the list of its writes, those that fail included. Events, metrics and logs are left out. A
-- summary counts fewer than 2 ^ 31 findings, so that its numbers print as they are.
pub mod Finalizer
pub mod Reported
pub mod Phases
use aotanami.ClusterScan.Names.{scan_report_basename, scan_requeue_interval}
use aotanami.Scanner.Pod.{Pod}
use aotanami.ClusterScan.Execute.{execute_scan, evaluate_compliance, ScanRun, ComplianceResult}
use aotanami.Conditions.{set, condition_false, condition_true, condition_unknown, ConditionStatus}
use aotanami.ClusterScan.Targets.{resolve_target_pods, ScopeApi}
use aotanami.ClusterScan.History.{
  out_of_range, all_deleted, enforce_history_limit, stopped, Ending, cleanup_scan_reports, Deletion,
}
use aotanami.SecurityPolicy.Model.{ok, err, Attempt}
use aotanami.Scanner.Registry.{Registry}
use aotanami.Prelude.{
  length, not, decimal, none, if◌then◌else◌, false, true, codes, ◌++◌, some, ◌∷◌, map, ℕ, List, [],
  Option, Text,
}
use aotanami.ClusterScan.Model.{ScanSummary, ReportFinding, ScanReport, ClusterScan}
use aotanami.SecurityPolicy.Reconcile.{join}

-- What GET of the scan returns.
pub data Fetched : Type 0 where
  fetched : ClusterScan → Fetched
  not_found : Fetched
  fetch_failed : Text → Fetched

-- ScanReport, as it is created.
pub record NewReport : Type 0 where
  pub generate_name : Text
  pub namespace : Text
  pub scan_ref : Text
  pub findings : List ReportFinding
  pub summary : ScanSummary
  pub compliance : List ComplianceResult

-- A write to the API. The status of a new report is written with an error that is logged.
pub data Write : Type 0 where
  update_scan : ClusterScan → Write
  update_status : ClusterScan → Write
  create_report : NewReport → Write
  complete_report : Text → Write
  delete_report : ScanReport → Write

-- The answers of the API in one run; an update gives an error or `none`. A created report gives the
-- name that the API server made of its prefix.
pub record ScanApi : Type 0 where
  pub update_answer : Option Text
  pub first_status_answer : Option Text
  pub last_status_answer : Option Text
  pub owner_answer : Option Text
  pub create_answer : NewReport → Attempt Text
  pub list_reports : Attempt (List ScanReport)
  pub delete_answer : ScanReport → Deletion

-- The writes, and what Reconcile returns; `requeue_now` is Requeue: true.
pub data ScanOutcome : Type 0 where
  done : ScanOutcome
  requeue_now : ScanOutcome
  requeue_after : ℕ → ScanOutcome
  failed_with : Text → ScanOutcome

pub record Run : Type 0 where
  pub writes : List Write
  pub outcome : ScanOutcome

-- A write with its answer: the run ends there, or goes on.
abbrev pub attempt : Write → Text → Option Text → Run → Run
attempt w prefix none rest = record rest { writes = w ∷ rest.writes }
attempt w prefix (some e) rest = record {
  writes = w ∷ [];
  outcome = failed_with (prefix ++ codes ": " ++ e);
}

abbrev pub deletion_writes : List ScanReport → List Write
deletion_writes rs = map delete_report rs

abbrev pub ends : ScanOutcome → Run
ends o = record { writes = []; outcome = o }

-- The readings of the clock: as the status is first written, as compliance is evaluated, and at the
-- end, where the interval to the next run is computed.
pub record ScanClock : Type 0 where
  pub started_at : ℕ
  pub evaluated_at : ℕ
  pub finished_at : ℕ

module _ (parse_standard : Text → Option (ℕ → ℕ)) (registry : Registry) (pod_api : ScopeApi)
    (api : ScanApi) (clock : ScanClock) where
  abbrev pub next_run : ClusterScan → ScanOutcome
  next_run scan = requeue_after (scan_requeue_interval parse_standard clock.finished_at scan)

  -- The status of a scan that does not run, or cannot.
  abbrev pub with_condition : ℕ → Text → ConditionStatus → Text → Text → ClusterScan → ClusterScan
  with_condition now phase status reason message scan = record scan {
    status = record scan.status {
      phase = phase;
      conditions =
          set now (codes "Ready") status reason message scan.generation scan.status.conditions;
    };
  }

  pub suspended : ClusterScan → ClusterScan
  suspended scan =
      with_condition clock.started_at (codes "Pending") condition_false (codes "Suspended")
        (codes "Scan is suspended") scan

  pub running : ClusterScan → ClusterScan
  running scan =
      with_condition clock.started_at (codes "Running") condition_unknown (codes "Progressing")
        (codes "Scan in progress") scan

  -- handleTargetResolutionError
  pub unresolved : Text → ClusterScan → ClusterScan
  unresolved e scan =
      with_condition clock.finished_at (codes "Failed") condition_false (codes "ReconcileFailed")
        (codes "Target resolution failed: " ++ e) scan

  abbrev pub verdict : List Text → ClusterScan → ClusterScan
  verdict [] scan =
      with_condition clock.finished_at (codes "Completed") condition_true (codes "ReconcileSuccess")
        (codes "Scan completed successfully") scan
  verdict (e ∷ es) scan =
      with_condition clock.finished_at (codes "Degraded") condition_false (codes "ReconcileFailed")
        (codes "Scans completed with "
          ++ decimal (length (e ∷ es))
          ++ codes " error(s): "
          ++ join (e ∷ es))
        scan

  -- updateFinalStatus up to its call of the API.
  pub completed : ScanRun → Text → ClusterScan → ClusterScan
  completed run report_name scan = verdict run.scan_errors (record scan {
    status = record scan.status {
      conditions =
          set clock.finished_at (codes "ScanCompleted") condition_true (codes "ScanSuccess")
            (codes "Scan completed: "
              ++ decimal run.summary.total_findings
              ++ codes " findings across "
              ++ decimal run.summary.resources_scanned
              ++ codes " resources")
            scan.generation scan.status.conditions;
      last_schedule_time = some clock.finished_at;
      completed_at = some clock.finished_at;
      findings_count = run.summary.total_findings;
      last_report_name = report_name;
    };
  })

  -- The report of createScanReport.
  pub report_of : ClusterScan → ScanRun → NewReport
  report_of scan run = record {
    generate_name = scan_report_basename scan.name;
    namespace = scan.namespace;
    scan_ref = scan.name;
    findings = run.findings;
    summary = run.summary;
    compliance = evaluate_compliance clock.evaluated_at run.findings;
  }

  -- From the creation of the report on. An error of the history limit is only logged, and an index out
  -- of range does not happen (History.Newest).
  abbrev pub after_creation : ClusterScan → ScanRun → NewReport → Attempt Text → Run
  after_creation scan run report (err e) = record {
    writes = create_report report ∷ [];
    outcome = failed_with (codes "creating scan report: creating ScanReport: " ++ e);
  }
  after_creation scan run report (ok name) =
      let pruned =
        enforce_history_limit api.delete_answer scan.spec.history_limit api.list_reports in
      let scan' = completed run name scan in
      let last =
        attempt (update_status scan') (codes "updating status") api.last_status_answer
          (ends (next_run scan')) in
      record last {
        writes =
            create_report report
            ∷ complete_report name
            ∷ (deletion_writes pruned.requested ++ last.writes);
      }

  abbrev pub with_owner : ClusterScan → ScanRun → Option Text → Run
  with_owner scan run (some e) =
      ends
        (failed_with (codes "creating scan report: setting owner reference on ScanReport: " ++ e))
  with_owner scan run none =
      let report = report_of scan run in after_creation scan run report (api.create_answer report)

  -- From the resolved pods on.
  abbrev pub scan_pods : ClusterScan → Attempt (List Pod) → Run
  scan_pods scan (err e) =
      let scan' = unresolved e scan in
      attempt (update_status scan') (codes "updating status") api.last_status_answer
        (ends (next_run scan'))
  scan_pods scan (ok pods) = with_owner scan (execute_scan registry scan pods) api.owner_answer

  -- The removal of the finalizer after the deletions, by their ending. A range loop has no index out of
  -- range.
  abbrev pub finalize : ClusterScan → Ending → Run
  finalize scan all_deleted =
      attempt (update_scan (record scan { has_finalizer = false })) (codes "removing finalizer")
        api.update_answer (ends done)
  finalize scan (stopped e) = ends (failed_with (codes "cleaning up ScanReports: " ++ e))
  finalize scan out_of_range = ends (failed_with (codes "panic"))

  -- Reconcile of a scan that was fetched, by its guards in their order.
  pub delete_scan : ClusterScan → Run
  delete_scan scan =
      let d = cleanup_scan_reports api.delete_answer api.list_reports in
      let last = finalize scan d.ending in
      if scan.has_finalizer
      then record last { writes = deletion_writes d.requested ++ last.writes }
      else ends done

  pub add_finalizer : ClusterScan → Run
  add_finalizer scan =
      attempt (update_scan (record scan { has_finalizer = true })) (codes "adding finalizer")
        api.update_answer (ends requeue_now)

  pub suspend_scan : ClusterScan → Run
  unfolding suspended
  suspend_scan scan =
      attempt (update_status (suspended scan)) (codes "updating status") api.first_status_answer
        (ends (next_run (suspended scan)))

  pub run_scan : ClusterScan → Run
  unfolding running unresolved completed report_of
  run_scan scan =
      attempt (update_status (running scan)) (codes "updating status to Running")
        api.first_status_answer
        (scan_pods (running scan) (resolve_target_pods pod_api (running scan)))

  -- Reconcile
  unfoldable pub reconcile : Fetched → Run
  unfolding delete_scan add_finalizer suspend_scan run_scan
  reconcile not_found = ends done
  reconcile (fetch_failed e) = ends (failed_with (codes "fetching ClusterScan: " ++ e))
  reconcile (fetched scan) =
      if scan.is_deleted
      then delete_scan scan
      else if not scan.has_finalizer
      then add_finalizer scan
      else if scan.spec.suspend
      then suspend_scan scan
      else run_scan scan
