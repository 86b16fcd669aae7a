-- ===== src/ClusterScan/Tests.antt =====
-- A scan of one namespace by two scanners, one of which fails.
use aotanami.SecurityPolicy.Reconcile.{evaluated}
use aotanami.ClusterScan.Reconcile.Phases.{phase-accepted_iff, policy_phases, scan_phases}
use aotanami.SecurityPolicy.Scan.{PolicyEvalResult}
use aotanami.Prelude.{
  ◌↔◌, Elem, ◌≡◌, refl, ◌∷◌, [], List, Option, some, none, true, false, codes, Text, ℕ, ◌+◌, ◌*◌,
  map, arith, Any, inl, inr, insert_by, sort_by,
}
use aotanami.Scanner.Pod.{Pod, pod_finding}
use aotanami.Scanner.Registry.{Registry, found, failed}
use aotanami.SecurityPolicy.Model.{SecurityPolicy, ok}
use aotanami.SecurityPolicy.Targets.{PodApi}
use aotanami.ClusterScan.Model.{ScanReport, ClusterScan}
use aotanami.ClusterScan.Names.{truncate_runes, minute}
use aotanami.ClusterScan.Targets.{ScopeApi}
use aotanami.ClusterScan.Targets.Policies.{without_selector}
use aotanami.ClusterScan.Execute.{execute_scan}
use aotanami.ClusterScan.History.{
  Deletion, deleted, enforce_history_limit, cleanup_scan_reports, delete_first,
}
use aotanami.ClusterScan.History.Newest.{IsPruned, enforce_history_limit_lem}
use aotanami.ClusterScan.Reconcile.{completed, ScanClock, ScanApi, reconcile, fetched}
use aotanami.ClusterScan.Reconcile.Finalizer.{IsCleaned, IsScanUpdate, finalizer_outlives_reports}

abbrev prod : Text
prod = codes "prod"

abbrev worker : Pod
worker = record {
  namespace = prod;
  name = codes "worker";
  labels = [];
  is_running = true;
  init_containers = [];
  containers = [];
  volumes = [];
  host_network = true;
  host_pid = false;
  host_ipc = false;
  share_process_namespace = none;
  automount_service_account_token = none;
  security_context = none;
  service_account_name = [];
  deprecated_service_account = [];
}

abbrev pods : List Pod
pods = worker ∷ []

abbrev registry : Registry
registry =
    record {
      name = codes "Host Network";
      rule_type = codes "host-network";
      scan = λ ps params. found (
          map
            (λ p.
              pod_finding (codes "host-network") (codes "critical") (codes "uses host network") []
                [] p)
            ps);
    }
    ∷ record {
      name = codes "Broken";
      rule_type = codes "broken";
      scan = λ ps params. failed (codes "timeout");
    }
    ∷ []

abbrev nightly : ClusterScan
nightly = record {
  name = codes "nightly";
  namespace = codes "zelyo-system";
  generation = 1;
  is_deleted = false;
  has_finalizer = true;
  spec = record {
    schedule = codes "0 0 * * *";
    scanners = codes "host-network" ∷ codes "unknown" ∷ codes "broken" ∷ [];
    scope = record { namespaces = prod ∷ []; exclude_namespaces = [] };
    compliance_frameworks = [];
    suspend = false;
    history_limit = 2;
  };
  status = record {
    phase = [];
    conditions = [];
    last_schedule_time = none;
    completed_at = none;
    findings_count = 0;
    last_report_name = [];
  };
}

abbrev idle : Pod
idle = record worker { name = codes "idle"; is_running = false }

abbrev pod_api : PodApi Text
pod_api = record {
  list_namespaces = ok (prod ∷ []);
  label_selector_as_selector = λ l. ok [];
  list_pods = λ ns selector. ok (worker ∷ idle ∷ []);
}

abbrev scope_api : ScopeApi
scope_api = without_selector pod_api

abbrev report : ℕ → ScanReport
report t = record { name = codes "nightly-x"; creation_timestamp = t }

abbrev reports : List ScanReport
reports = report 30 ∷ report 10 ∷ report 20 ∷ []

abbrev delete : ScanReport → Deletion
delete r = deleted

abbrev api : ScanApi
api = record {
  update_answer = none;
  first_status_answer = none;
  last_status_answer = none;
  owner_answer = none;
  create_answer = λ r. ok (codes "nightly-abcde");
  list_reports = ok reports;
  delete_answer = delete;
}

abbrev clock : ScanClock
clock = record { started_at = 1; evaluated_at = 2; finished_at = 3 }

-- Every schedule is hourly.
abbrev hourly : Text → Option (ℕ → ℕ)
hourly s = some (λ t. t + 60 * minute)

enforce_history_limit_lem_example : IsPruned 2 reports (enforce_history_limit delete 2 (ok reports))
enforce_history_limit_lem_example =
    enforce_history_limit_lem delete 2 reports (omega arith) (omega arith)

-- The oldest one is deleted.
oldest_goes : (enforce_history_limit delete 2 (ok reports)).requested ≡ report 10 ∷ []
unfolding enforce_history_limit delete_first sort_by insert_by
oldest_goes = refl

abbrev everywhere_in_prod : SecurityPolicy
everywhere_in_prod = record {
  name = codes "all";
  namespace = prod;
  generation = 1;
  spec = record {
    severity = codes "low";
    match = record {
      namespaces = prod ∷ [];
      exclude_namespaces = [];
      label_selector = none;
      resource_kinds = [];
    };
    rules = [];
    auto_remediate = false;
    schedule = [];
  };
  status = record {
    phase = [];
    conditions = [];
    violation_count = 0;
    last_evaluated = none;
    observed_generation = 0;
  };
}

-- The text `é!` has two characters, in three bytes.
first_character : truncate_runes (195 ∷ 169 ∷ 33 ∷ []) 1 ≡ 195 ∷ 169 ∷ []
unfolding truncate_runes
first_character = refl

abbrev dying : ClusterScan
dying = record nightly { is_deleted = true }

cleaned_up : Any IsScanUpdate (reconcile hourly registry scope_api api clock (fetched dying)).writes
unfolding reconcile cleanup_scan_reports delete_first
cleaned_up = inr (inr (inr (inl tt)))

finalizer_outlives_reports_example :
    IsCleaned hourly registry scope_api api clock dying
      (reconcile hourly registry scope_api api clock (fetched dying)).writes
finalizer_outlives_reports_example =
    finalizer_outlives_reports hourly registry scope_api api clock dying refl cleaned_up

-- The policy is evaluated while one scanner fails.
abbrev broken_evaluation : PolicyEvalResult
broken_evaluation = record { findings = []; scan_errors = codes "Broken: timeout" ∷ [] }

phase-accepted_iff_example :
    (Elem
        (completed hourly registry scope_api api clock
          (execute_scan registry nightly pods)
          (codes "nightly-abcde")
          nightly).status.phase
        scan_phases
      ↔ ((execute_scan registry nightly pods).scan_errors ≡ []))
    × (Elem (evaluated 5 everywhere_in_prod broken_evaluation).status.phase policy_phases
        ↔ (broken_evaluation.scan_errors ≡ []))
phase-accepted_iff_example =
    phase-accepted_iff hourly registry scope_api api clock (execute_scan registry nightly pods)
      (codes "nightly-abcde") nightly 5 everywhere_in_prod broken_evaluation
