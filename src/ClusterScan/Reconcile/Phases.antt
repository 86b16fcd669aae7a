-- ===== src/ClusterScan/Reconcile/Phases.antt =====
-- The phases that the controllers write, and those that the resource definitions accept.
use aotanami.SecurityPolicy.Scan.{PolicyEvalResult}
use aotanami.ClusterScan.Execute.{ScanRun}
use aotanami.ClusterScan.Targets.{ScopeApi}
use aotanami.Scanner.Registry.{Registry}
use aotanami.SecurityPolicy.Reconcile.{phase_of, evaluated}
use aotanami.ClusterScan.Reconcile.{
  ScanRun, verdict, ScanClock, ScanApi, ScopeApi, Registry, completed,
}
use aotanami.Prelude.{
  refl, text_eq_iff, any_iff, arith, [], true, ◌↔◌, ◌≡◌, ◌∷◌, any, ℕ, codes, Elem, List, Option,
  text_eq, Text,
}
use aotanami.ClusterScan.Model.{ClusterScan}
use aotanami.SecurityPolicy.Model.{SecurityPolicy}

-- The enumeration of ClusterScanStatus.Phase.
abbrev pub scan_phases : List Text
scan_phases = codes "Pending" ∷ codes "Running" ∷ codes "Completed" ∷ codes "Failed" ∷ []

-- The enumeration of SecurityPolicyStatus.Phase.
abbrev pub policy_phases : List Text
policy_phases = codes "Pending" ∷ codes "Active" ∷ codes "Error" ∷ []

accepted_iff :
    (phase : Text) (phases : List Text) → (any (text_eq phase) phases ≡ true) ↔ Elem phase phases
accepted_iff phase phases = any_iff (text_eq phase) (λ x. phase ≡ x) (text_eq_iff phase) phases

module _ (parse_standard : Text → Option (ℕ → ℕ)) (registry : Registry) (pod_api : ScopeApi)
    (api : ScanApi) (clock : ScanClock) where
  verdict-accepted_iff :
      (errors : List Text) (scan : ClusterScan)
      → Elem
          (verdict parse_standard registry pod_api api clock errors scan).status.phase
          scan_phases
        ↔ (errors ≡ [])
  unfolding text_eq
  verdict-accepted_iff [] scan =
      ((λ _. refl), λ _. (accepted_iff (codes "Completed") scan_phases).0 refl)
  verdict-accepted_iff (e ∷ es) scan = (
    (λ m. absurd (ground (arith, (accepted_iff (codes "Degraded") scan_phases).1 m))),
    λ h. absurd (ground (arith, h)),
  )

phase_of-accepted_iff : (errors : List Text) → Elem (phase_of errors) policy_phases ↔ (errors ≡ [])
unfolding text_eq
phase_of-accepted_iff [] = ((λ _. refl), λ _. (accepted_iff (codes "Active") policy_phases).0 refl)
phase_of-accepted_iff (e ∷ es) = (
  (λ m. absurd (ground (arith, (accepted_iff (codes "Degraded") policy_phases).1 m))),
  λ h. absurd (ground (arith, h)),
)

-- The phase that a finished cluster scan writes, and the one that an evaluated policy writes, is one
-- that the resource definition accepts exactly if no scanner failed.
pub phase-accepted_iff :
    (parse_standard : Text → Option (ℕ → ℕ)) (registry : Registry) (pod_api : ScopeApi)
    (api : ScanApi) (clock : ScanClock) (run : ScanRun) (name : Text) (scan : ClusterScan) (now : ℕ)
    (policy : SecurityPolicy) (eval : PolicyEvalResult)
    → (Elem
          (completed parse_standard registry pod_api api clock run name scan).status.phase
          scan_phases
        ↔ (run.scan_errors ≡ []))
      × (Elem (evaluated now policy eval).status.phase policy_phases ↔ (eval.scan_errors ≡ []))
unfolding completed evaluated
phase-accepted_iff parse_standard registry pod_api api clock run name scan now policy eval = (
  verdict-accepted_iff parse_standard registry pod_api api clock run.scan_errors _,
  phase_of-accepted_iff eval.scan_errors,
)
