-- ===== src/SecurityPolicy/Reconcile.antt =====
-- Reconcile of the SecurityPolicy controller. `W` is the state of the cluster and of the channels;
-- metrics and logs are left out.
pub mod Status
pub mod Verdict
use aotanami.SecurityPolicy.Ingest.{ingest_findings}
use aotanami.SecurityPolicy.Scan.{run_policy_scanners, failures_of, PolicyEvalResult}
use aotanami.Scanner.Pod.{Pod}
use aotanami.Remediation.Model.{Finding}
use aotanami.SecurityPolicy.Notify.{send_notifications, ChannelApi}
use aotanami.Scanner.Registry.{lookup, Registry}
use aotanami.SecurityPolicy.Targets.{resolve_target_pods, PodApi}
use aotanami.Prelude.{
  join_by, gather, none, decimal, map, some, ◌%◌, ◌++◌, Bool, [], length, ◌∷◌, ◌*◌, codes, Option,
  ℕ, Text, List,
}
use aotanami.SecurityPolicy.Model.{ok, err, Attempt, SecurityRule, SecurityPolicy}
use aotanami.Notifier.{ChannelConfig, Notification}
use aotanami.Correlator.{Engine}
use aotanami.Conditions.{condition_false, condition_true, Condition, set}

-- What GET of the policy returns.
pub data Fetched : Type 0 where
  fetched : SecurityPolicy → Fetched
  not_found : Fetched
  fetch_failed : Text → Fetched

-- An event that the recorder emits about the policy.
pub record KubeEvent : Type 0 where
  pub type : Text
  pub reason : Text
  pub message : Text

-- ctrl.Result with its error: requeue_after is 0 for no requeue.
pub data Outcome : Type 0 where
  requeue_after : ℕ → Outcome
  failed_with : Text → Outcome

pub record Cycle (W : Type 0) : Type 0 where
  pub world : W
  pub engine : Option Engine
  pub recorded : List KubeEvent
  pub outcome : Outcome

abbrev pub normal : Text → Text → KubeEvent
normal reason message = record { type = codes "Normal"; reason = reason; message = message }

abbrev pub warning : Text → Text → KubeEvent
warning reason message = record { type = codes "Warning"; reason = reason; message = message }

abbrev pub requeue_interval_scan : ℕ
requeue_interval_scan = 5 * 60 * 1000000000

-- strings.Join(errs, "; ")
abbrev pub join : List Text → Text
join errs = join_by (codes "; ") errs

-- The event about a rule whose scanner failed.
abbrev pub rule_events : Registry → List Pod → SecurityRule → List KubeEvent
rule_events registry pods rule =
    map (warning (codes "ReconcileError")) (failures_of pods rule (lookup rule.type registry))

-- The readings of the clock: as the i-th finding is ingested, as the notification is sent, and as the
-- status is written.
pub record Clock : Type 0 where
  pub ingested_at : ℕ → ℕ
  pub notified_at : ℕ
  pub updated_at : ℕ

abbrev pub scan_condition : ℕ → ℕ → List Finding → List Condition → List Condition
scan_condition now generation [] =
    set now (codes "ScanCompleted") condition_true (codes "NoViolations")
      (codes "Scan completed with no violations") generation
scan_condition now generation (f ∷ fs) =
    set now (codes "ScanCompleted") condition_true (codes "ViolationsFound")
      (codes "Scan completed: " ++ decimal (length (f ∷ fs)) ++ codes " violations found")
      generation

abbrev pub scan_event : SecurityPolicy → ℕ → List Finding → KubeEvent
scan_event policy pods_scanned [] =
    normal (codes "ScanCompleted")
      (codes "Scan completed with 0 violations across " ++ decimal pods_scanned ++ codes " pods")
scan_event policy pods_scanned (f ∷ fs) = warning (codes "ViolationsDetected") (
    codes "Found "
    ++ decimal (length (f ∷ fs))
    ++ codes " violations across "
    ++ decimal pods_scanned
    ++ codes " pods (severity >= "
    ++ policy.spec.severity
    ++ codes ")")

abbrev pub ready_condition : ℕ → ℕ → List Text → List Condition → List Condition
ready_condition now generation [] =
    set now (codes "Ready") condition_true (codes "ReconcileSuccess")
      (codes "Policy is active and scanning") generation
ready_condition now generation (e ∷ es) =
    set now (codes "Ready") condition_false (codes "ReconcileFailed")
      (codes "Scans completed with "
        ++ decimal (length (e ∷ es))
        ++ codes " error(s): "
        ++ join (e ∷ es))
      generation

abbrev pub phase_of : List Text → Text
phase_of [] = codes "Active"
phase_of (e ∷ es) = codes "Degraded"

-- updatePolicyStatus up to its call of the API. ViolationCount is an int32, as its bit pattern.
unfoldable pub evaluated : ℕ → SecurityPolicy → PolicyEvalResult → SecurityPolicy
evaluated now policy eval = record policy {
  status = record {
    phase = phase_of eval.scan_errors;
    conditions =
        ready_condition now policy.generation eval.scan_errors
          (scan_condition now policy.generation eval.findings policy.status.conditions);
    violation_count = length eval.findings % 4294967296;
    last_evaluated = some now;
    observed_generation = policy.generation;
  };
}

-- handlePodResolutionError up to its call of the API.
unfoldable pub unresolved : ℕ → SecurityPolicy → Text → SecurityPolicy
unresolved now policy e = record policy {
  status = record policy.status {
    phase = codes "Error";
    conditions =
        set now (codes "Ready") condition_false (codes "ReconcileFailed")
          (codes "Failed to resolve targets: " ++ e) policy.generation policy.status.conditions;
    observed_generation = policy.generation;
  };
}

-- The events of a scan, in order.
abbrev pub scan_events : Registry → SecurityPolicy → List Pod → List Finding → List KubeEvent
scan_events registry policy pods findings =
    normal (codes "ScanStarted") (
      codes "Starting scan: "
      ++ decimal (length policy.spec.rules)
      ++ codes " rules against "
      ++ decimal (length pods)
      ++ codes " pods")
    ∷ (gather (rule_events registry pods) policy.spec.rules
        ++ scan_event policy (length pods) findings ∷ [])

module _ {W Selector : Type 0} (pod_api : PodApi Selector) (channel_api : ChannelApi)
    (deliver : ChannelConfig → Notification → W → Bool × W)
    (update_status : SecurityPolicy → W → Option Text × W) (registry : Registry)
    (clock : Clock) where
  -- The call of Status().Update and what is returned after it.
  abbrev write : SecurityPolicy → Option Engine → List KubeEvent → Option Text × W → Cycle W
  write policy engine recorded (none, w) = record {
    world = w;
    engine = engine;
    recorded = recorded;
    outcome = requeue_after requeue_interval_scan;
  }
  write policy engine recorded (some e, w) = record {
    world = w;
    engine = engine;
    recorded = recorded;
    outcome = failed_with (codes "updating status: " ++ e);
  }

  -- Reconcile by what resolveTargetPods returned.
  abbrev reconcile_pods : SecurityPolicy → Option Engine → Attempt (List Pod) → W → Cycle W
  reconcile_pods policy engine (err e) w =
      let policy' = unresolved clock.updated_at policy e in
      write policy' engine
        (warning (codes "ReconcileError") (codes "Failed to resolve target pods: " ++ e) ∷ [])
        (update_status policy' w)
  reconcile_pods policy engine (ok pods) w =
      let eval = run_policy_scanners registry policy pods in
      let engine' = ingest_findings policy clock.ingested_at eval.findings engine in
      let w' = send_notifications deliver channel_api clock.notified_at policy eval.findings w in
      let policy' = evaluated clock.updated_at policy eval in
      write policy' engine' (scan_events registry policy pods eval.findings)
        (update_status policy' w')

  -- Reconcile
  unfoldable pub reconcile : Fetched → Option Engine → W → Cycle W
  unfolding evaluated unresolved
  reconcile not_found engine w = record {
    world = w;
    engine = engine;
    recorded = [];
    outcome = requeue_after 0;
  }
  reconcile (fetch_failed e) engine w = record {
    world = w;
    engine = engine;
    recorded = [];
    outcome = failed_with (codes "fetching SecurityPolicy: " ++ e);
  }
  reconcile (fetched policy) engine w =
      reconcile_pods policy engine (resolve_target_pods pod_api policy) w
