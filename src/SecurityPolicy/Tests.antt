-- ===== src/SecurityPolicy/Tests.antt =====
-- A policy over one namespace with two pods.
use aotanami.Scanner.PodSecurity.{is_dangerous}
use aotanami.SecurityPolicy.Notify.Delivery.{Receivers, send_notifications_lem}
use aotanami.SecurityPolicy.Reconcile.Verdict.{reconcile_verdict}
use aotanami.SecurityPolicy.Scan.Clean.{clean_scan_iff, Complies}
use aotanami.Notifier.Fresh.{admits, deliver_each}
use aotanami.Scanner.Registry.Defaults.{built_in}
use aotanami.SecurityPolicy.Ingest.{ingest_all}
use aotanami.SecurityPolicy.Targets.{resolve_target_pods, PodApi}
use aotanami.SecurityPolicy.Ingest.Grouped.{is_about, two_findings_are_grouped, IsPrompt}
use aotanami.Correlator.Grouping.{HasOpen}
use aotanami.SecurityPolicy.Notify.{notification, ChannelApi, send_notifications}
use aotanami.SecurityPolicy.Scan.Sorted.{run_policy_scanners_lem, IsFound, IsSorted}
use aotanami.Prelude.{
  map, All, Any, filter, length, ◌↔◌, Elem, false, refl, ◌≡◌, arith, ◌∷◌, ◌≤◌, true, none, [],
  codes, Option, List, Bool, Text, text_eq,
}
use aotanami.SecurityPolicy.Scan.{run_policy_scanners, severity_order}
use aotanami.SecurityPolicy.Model.{ok, SecurityRule, NotificationChannel, SecurityPolicy}
use aotanami.Conditions.{condition_true}
use aotanami.Notifier.{ChannelConfig, Notification}
use aotanami.Correlator.{new_engine}
use aotanami.Scanner.Pod.{Pod, Container}
use aotanami.SecurityPolicy.Reconcile.{
  requeue_interval_scan, requeue_after, fetched, Cycle, Clock, reconcile,
}
use aotanami.SecurityPolicy.Reconcile.Status.{scan_completed, Reads, ready}
use aotanami.Remediation.Model.{Finding}
use aotanami.Scanner.Registry.{lookup}
use aotanami.Scanner.ResourceLimits
use aotanami.Scanner.PodSecurity

abbrev prod : Text
prod = codes "prod"

abbrev sidecar : Container
sidecar = record {
  name = codes "sidecar";
  image = codes "envoy:latest";
  security_context = none;
  env_from = [];
  env = [];
  host_ports = [];
  cpu_request = 0;
  memory_request = 0;
  cpu_limit = 1;
  memory_limit = 1;
}

abbrev gateway : Pod
gateway = record {
  namespace = prod;
  name = codes "gateway";
  labels = [];
  is_running = true;
  init_containers = [];
  containers = sidecar ∷ [];
  volumes = [];
  host_network = true;
  host_pid = false;
  host_ipc = false;
  share_process_namespace = none;
  automount_service_account_token = none;
  security_context = none;
  service_account_name = [];
  deprecated_service_account = [];
}

abbrev rule : Text → SecurityRule
rule type = record { name = type; type = type; enforce = true; params = [] }

abbrev baseline : SecurityPolicy
baseline = record {
  name = codes "baseline";
  namespace = codes "zelyo-system";
  generation = 1;
  spec = record {
    severity = codes "low";
    match = record {
      namespaces = prod ∷ [];
      exclude_namespaces = [];
      label_selector = none;
      resource_kinds = [];
    };
    rules = rule (codes "resource-limits") ∷ rule (codes "pod-security") ∷ [];
    auto_remediate = false;
    schedule = [];
  };
  status = record {
    phase = [];
    conditions = [];
    violation_count = 0;
    last_evaluated = none;
    observed_generation = 0;
  };
}

abbrev pods : List Pod
pods = gateway ∷ record gateway { name = codes "idle"; is_running = false } ∷ []

abbrev pod_api : PodApi Text
pod_api = record {
  list_namespaces = ok (prod ∷ codes "kube-system" ∷ []);
  label_selector_as_selector = λ l. ok [];
  list_pods = λ ns selector. ok pods;
}

abbrev slack_channel : NotificationChannel
slack_channel = record {
  name = codes "alerts";
  namespace = prod;
  type = codes "slack";
  credential_secret = codes "hook";
  severity_filter = codes "high";
}

abbrev channel_api : ChannelApi
channel_api = record {
  list_channels = ok (slack_channel ∷ []);
  get_secret = λ ns name. ok (λ key. codes "https://hooks");
}

-- The state of the world is the policy that was stored last.
abbrev deliver : ChannelConfig → Notification → SecurityPolicy → Bool × SecurityPolicy
deliver ch notif w = (true, w)

abbrev update_status : SecurityPolicy → SecurityPolicy → Option Text × SecurityPolicy
update_status policy w = (none, policy)

abbrev clock : Clock
clock = record { ingested_at = λ i. 7; notified_at = 8; updated_at = 9 }

abbrev after : Cycle SecurityPolicy
after =
    reconcile pod_api channel_api deliver update_status built_in clock (fetched baseline) none
      baseline

resolved : resolve_target_pods pod_api baseline ≡ ok (gateway ∷ [])
unfolding resolve_target_pods text_eq
resolved = refl

done : after.outcome ≡ requeue_after requeue_interval_scan
unfolding reconcile resolve_target_pods text_eq
done = refl

low_severity : 3 ≤ severity_order (codes "low")
unfolding severity_order text_eq
low_severity = omega arith

reconcile_verdict_example :
    Reads after.world.status.conditions ready condition_true (codes "ReconcileSuccess")
    × (Reads after.world.status.conditions scan_completed condition_true (codes "NoViolations")
        ↔ All (λ rule. All (Complies rule.type) (gateway ∷ [])) baseline.spec.rules)
reconcile_verdict_example =
    reconcile_verdict pod_api channel_api deliver update_status clock (λ p. p) baseline none
      baseline (gateway ∷ []) (λ p w h. refl) resolved low_severity done

clean_scan_iff_example :
    ((run_policy_scanners built_in baseline pods).findings ≡ [])
    ↔ All (λ rule. All (Complies rule.type) pods) baseline.spec.rules
clean_scan_iff_example = clean_scan_iff baseline pods low_severity

run_policy_scanners_lem_example :
    IsSorted (run_policy_scanners built_in baseline pods).findings
    × ((f : Finding)
        → Elem f (run_policy_scanners built_in baseline pods).findings
          ↔ Any (IsFound built_in baseline pods f) baseline.spec.rules)
run_policy_scanners_lem_example = run_policy_scanners_lem built_in baseline pods

abbrev finding : Text → Finding
finding severity = record {
  rule_type = codes "pod-security";
  severity = severity;
  title = codes "Pod uses host network";
  description = [];
  resource_kind = codes "Pod";
  resource_namespace = prod;
  resource_name = codes "gateway";
  recommendation = [];
}

abbrev two_findings : List Finding
two_findings = finding (codes "critical") ∷ finding (codes "high") ∷ []

prompt : IsPrompt (λ i. 7) (new_engine 10).window 2
unfolding new_engine
prompt k j a b = omega arith

both : 2 ≤ length (filter (is_about prod (codes "gateway")) two_findings)
unfolding text_eq
both = omega arith

two_findings_are_grouped_example :
    HasOpen prod (codes "gateway") (ingest_all baseline (λ i. 7) 0 two_findings (new_engine 10))
two_findings_are_grouped_example =
    two_findings_are_grouped baseline (λ i. 7) prod (codes "gateway") two_findings (new_engine 10)
      prompt both

send_notifications_lem_example :
    (cs : List ChannelConfig) × Receivers channel_api (slack_channel ∷ []) cs
    × (send_notifications deliver channel_api 8 baseline (finding (codes "high") ∷ []) baseline
        ≡ deliver_each deliver
            (notification 8 baseline (finding (codes "high")) (finding (codes "high") ∷ []))
            (filter (admits (codes "high")) cs)
            baseline)
send_notifications_lem_example =
    send_notifications_lem deliver channel_api 8 baseline (finding (codes "high")) []
      (slack_channel ∷ []) baseline refl

-- The scan of the gateway: the severities of what is found, the worst first.
scanned :
    map (λ f. f.severity) (run_policy_scanners built_in baseline (gateway ∷ [])).findings
    ≡ codes "critical" ∷ codes "medium" ∷ codes "medium" ∷ []
unfolding run_policy_scanners lookup ResourceLimits.scan PodSecurity.scan severity_order text_eq
scanned = refl
