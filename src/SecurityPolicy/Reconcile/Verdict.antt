-- ===== src/SecurityPolicy/Reconcile/Verdict.antt =====
-- The verdict of a reconcile over the built-in scanners.
use aotanami.SecurityPolicy.Scan.Clean.{clean_scan_iff, Complies}
use aotanami.SecurityPolicy.Ingest.{ingest_findings}
use aotanami.Scanner.Registry.{Registry}
use aotanami.Scanner.Registry.Defaults.{built_in}
use aotanami.Scanner.Pod.{Pod}
use aotanami.SecurityPolicy.Notify.{send_notifications, ChannelApi}
use aotanami.SecurityPolicy.Targets.{resolve_target_pods, PodApi}
use aotanami.Prelude.{
  sym, subst, All, ◌∙◌, ◌↔◌, ap, codes, arith, ◌≤◌, some, refl, none, Option, Bool, Text, ◌≡◌, List,
}
use aotanami.SecurityPolicy.Scan.{run_policy_scanners, severity_order}
use aotanami.SecurityPolicy.Model.{ok, SecurityPolicy}
use aotanami.Conditions.{condition_true}
use aotanami.Notifier.{ChannelConfig, Notification}
use aotanami.Correlator.{Engine}
use aotanami.SecurityPolicy.Reconcile.{
  scan_events, ingest_findings, fetched, evaluated, requeue_interval_scan, requeue_after,
  resolve_target_pods, reconcile_pods, write, KubeEvent, Clock, ChannelApi, Pod,
  run_policy_scanners, PodApi, reconcile,
}
use aotanami.SecurityPolicy.Scan.Errors.{scan_errors-built_in}
use aotanami.SecurityPolicy.Reconcile.Status.{
  evaluated-Active, evaluated-verdict_iff, scan_completed, Reads, ready,
}

module _ {W Selector : Type 0} (pod_api : PodApi Selector) (channel_api : ChannelApi)
    (deliver : ChannelConfig → Notification → W → Bool × W)
    (update_status : SecurityPolicy → W → Option Text × W) (registry : Registry)
    (clock : Clock) where
  write-success :
      (policy : SecurityPolicy) (engine : Option Engine) (recorded : List KubeEvent)
      (o : Option Text × W)
      → (write pod_api channel_api deliver update_status registry clock policy engine recorded
          o).outcome
        ≡ requeue_after requeue_interval_scan
      → (o.0 ≡ none)
        × ((write pod_api channel_api deliver update_status registry clock policy engine recorded
              o).world
            ≡ o.1)
  write-success policy engine recorded (none, w) h = (refl, refl)
  write-success policy engine recorded (some e, w) h = absurd (ground (arith, h))

  -- Reconcile once the pods are resolved, over the built-in scanners.
  pods_verdict :
      (stored : W → SecurityPolicy) (policy : SecurityPolicy) (engine : Option Engine) (w : W)
      (pods : List Pod)
      → ((p : SecurityPolicy) (w : W)
          → (update_status p w).0 ≡ none
          → stored (update_status p w).1 ≡ p)
      → registry ≡ built_in
      → let cycle =
          reconcile_pods pod_api channel_api deliver update_status registry clock policy engine
            (ok pods)
            w in
        cycle.outcome ≡ requeue_after requeue_interval_scan
        → stored cycle.world
          ≡ evaluated clock.updated_at policy (run_policy_scanners built_in policy pods)
  pods_verdict stored policy engine w pods stores same done =
      let eval = run_policy_scanners registry policy pods in
      let policy' = evaluated clock.updated_at policy eval in
      let w' = send_notifications deliver channel_api clock.notified_at policy eval.findings w in
      let (succeeded, there) =
        write-success policy' (ingest_findings policy clock.ingested_at eval.findings engine)
          (scan_events registry policy pods eval.findings) (update_status policy' w') done in
      ap stored there
      ∙ stores policy' w' succeeded
      ∙ ap (λ r. evaluated clock.updated_at policy (run_policy_scanners r policy pods)) same

-- The policy's pods are resolved, the built-in scanners run, and the status update succeeds: then the
-- stored policy is Ready, and its ScanCompleted condition says NoViolations exactly when every
-- resolved pod complies with every rule of the policy, if the policy reports even low severities.
-- What update_status stores is what it is given.
pub reconcile_verdict :
    {W Selector : Type 0} (pod_api : PodApi Selector) (channel_api : ChannelApi)
    (deliver : ChannelConfig → Notification → W → Bool × W)
    (update_status : SecurityPolicy → W → Option Text × W) (clock : Clock)
    (stored : W → SecurityPolicy) (policy : SecurityPolicy) (engine : Option Engine) (w : W)
    (pods : List Pod)
    → ((p : SecurityPolicy) (w : W)
        → (update_status p w).0 ≡ none
        → stored (update_status p w).1 ≡ p)
    → resolve_target_pods pod_api policy ≡ ok pods
    → 3 ≤ severity_order policy.spec.severity
    → let cycle =
        reconcile pod_api channel_api deliver update_status built_in clock
          (fetched policy)
          engine
          w in
      cycle.outcome ≡ requeue_after requeue_interval_scan
      → let conditions = (stored cycle.world).status.conditions in
        Reads conditions ready condition_true (codes "ReconcileSuccess")
        × (Reads conditions scan_completed condition_true (codes "NoViolations")
            ↔ All (λ rule. All (Complies rule.type) pods) policy.spec.rules)
unfolding reconcile
reconcile_verdict pod_api channel_api deliver update_status clock stored policy engine w pods stores
      resolved severe done =
    let eval = run_policy_scanners built_in policy pods in
    let written : stored
          (reconcile pod_api channel_api deliver update_status built_in clock (fetched policy)
            engine w).world
        ≡ evaluated clock.updated_at policy eval =
      subst
        (λ o.
          (reconcile_pods pod_api channel_api deliver update_status built_in clock policy engine o
              w).outcome
            ≡ requeue_after requeue_interval_scan
          → stored
              (reconcile_pods pod_api channel_api deliver update_status built_in clock policy engine
                o w).world
            ≡ evaluated clock.updated_at policy eval)
        (sym resolved)
        (pods_verdict pod_api channel_api deliver update_status built_in clock stored policy engine
          w pods stores refl)
        done in
    let (to, from) = evaluated-verdict_iff clock.updated_at policy eval in
    let (to', from') = clean_scan_iff policy pods severe in
    subst
      (λ (p : SecurityPolicy).
        Reads p.status.conditions ready condition_true (codes "ReconcileSuccess")
        × (Reads p.status.conditions scan_completed condition_true (codes "NoViolations")
            ↔ All (λ rule. All (Complies rule.type) pods) policy.spec.rules))
      (sym written)
      (
        (evaluated-Active clock.updated_at policy eval (scan_errors-built_in policy pods)).0,
        ((λ h. to' (to h)), λ h. from (from' h)),
      )
