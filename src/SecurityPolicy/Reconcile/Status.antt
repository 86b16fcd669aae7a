-- ===== src/SecurityPolicy/Reconcile/Status.antt =====
-- The status that a scan writes.
use aotanami.Remediation.Model.{Finding}
use aotanami.SecurityPolicy.Scan.{PolicyEvalResult}
use aotanami.SecurityPolicy.Reconcile.{scan_condition, evaluated, ready_condition}
use aotanami.Prelude.{
  subst, arith, refl, none, [], text_eq_refl, ap, ◌↔◌, ◌∷◌, Option, sym, ◌∙◌, some, false, ◌≡◌,
  text_eq, codes, ℕ, List, Text,
}
use mathlib.Core.Option.{some_inj}
use aotanami.SecurityPolicy.Model.{SecurityPolicy}
use aotanami.Conditions.{condition_false, condition_true, ConditionStatus, get, set, Condition}
use aotanami.Conditions.Upsert.{upserted, get-set}

abbrev pub ready : Text
ready = codes "Ready"

abbrev pub scan_completed : Text
scan_completed = codes "ScanCompleted"

-- The condition is there, with this status and reason.
abbrev pub Reads : List Condition → Text → ConditionStatus → Text → Type 0
Reads cs type status reason =
    (c : Condition) × (get cs type ≡ some c) × (c.status ≡ status) × (c.reason ≡ reason)

module _ (now : ℕ) (type : Text) (status : ConditionStatus) (reason message : Text)
    (generation : ℕ) where
  upserted-status :
      (o : Option Condition)
      → let c = upserted now type status reason message generation o in
        (c.status ≡ status) × (c.reason ≡ reason)
  upserted-status none = (refl, refl)
  upserted-status (some c) = (refl, refl)

  pub set-Reads :
      (cs : List Condition)
      → Reads (set now type status reason message generation cs) type status reason
  set-Reads cs = (
    upserted now type status reason message generation (get cs type),
    rw (text_eq_refl type) at (get-set now type status reason message generation cs type),
    (upserted-status (get cs type)).0,
    (upserted-status (get cs type)).1,
  )

  pub set-Reads_other :
      (cs : List Condition) (t : Text) (status' : ConditionStatus) (reason' : Text)
      → text_eq type t ≡ false
      → Reads cs t status' reason'
      → Reads (set now type status reason message generation cs) t status' reason'
  set-Reads_other cs t status' reason' apart (c, e, s, r) =
      (c, rw apart at (get-set now type status reason message generation cs t) ∙ e, s, r)

-- The reason of ScanCompleted.
abbrev pub verdict : List Finding → Text
verdict [] = codes "NoViolations"
verdict (f ∷ fs) = codes "ViolationsFound"

ready_condition-Reads :
    (now generation : ℕ) (errors : List Text) (cs : List Condition) (t : Text)
    (status : ConditionStatus) (reason : Text)
    → text_eq ready t ≡ false
    → Reads cs t status reason
    → Reads (ready_condition now generation errors cs) t status reason
ready_condition-Reads now generation [] cs t status reason apart h =
    set-Reads_other now ready condition_true _ _ generation cs t status reason apart h
ready_condition-Reads now generation (e ∷ es) cs t status reason apart h =
    set-Reads_other now ready condition_false _ _ generation cs t status reason apart h

scan_condition-Reads :
    (now generation : ℕ) (fs : List Finding) (cs : List Condition)
    → Reads (scan_condition now generation fs cs) scan_completed condition_true (verdict fs)
scan_condition-Reads now generation [] cs =
    set-Reads now scan_completed condition_true _ _ generation cs
scan_condition-Reads now generation (f ∷ fs) cs =
    set-Reads now scan_completed condition_true _ _ generation cs

-- The status reads ScanCompleted with the verdict, whatever else happened.
evaluated-verdict :
    (now : ℕ) (policy : SecurityPolicy) (eval : PolicyEvalResult)
    → Reads
        (evaluated now policy eval).status.conditions
        scan_completed
        condition_true
        (verdict eval.findings)
unfolding evaluated text_eq
evaluated-verdict now policy eval =
    ready_condition-Reads now policy.generation eval.scan_errors _ scan_completed condition_true
      (verdict eval.findings) refl
      (scan_condition-Reads now policy.generation eval.findings policy.status.conditions)

verdict_iff : (fs : List Finding) → (verdict fs ≡ codes "NoViolations") ↔ (fs ≡ [])
verdict_iff [] = ((λ e. refl), λ e. refl)
verdict_iff (f ∷ fs) = ((λ e. absurd (ground (arith, e))), λ e. absurd (ground (arith, e)))

Reads-unique :
    (cs : List Condition) (t : Text) (s s' : ConditionStatus) (r r' : Text)
    → Reads cs t s r
    → Reads cs t s' r'
    → r ≡ r'
Reads-unique cs t s s' r r' (c, e, _, p) (c', e', _, p') =
    let same : c ≡ c' = some_inj.0 (sym e ∙ e') in
    sym p ∙ ap (λ (x : Condition). x.reason) same ∙ p'

pub evaluated-verdict_iff :
    (now : ℕ) (policy : SecurityPolicy) (eval : PolicyEvalResult)
    → Reads
        (evaluated now policy eval).status.conditions
        scan_completed
        condition_true
        (codes "NoViolations")
      ↔ (eval.findings ≡ [])
evaluated-verdict_iff now policy eval =
    let (to, from) = verdict_iff eval.findings in
    let written = evaluated-verdict now policy eval in
    let cs = (evaluated now policy eval).status.conditions in
    (
      (λ h. to (
          Reads-unique cs scan_completed condition_true condition_true (verdict eval.findings)
            (codes "NoViolations") written h)),
      λ e. subst (λ r. Reads cs scan_completed condition_true r) (from e) written,
    )

-- Without errors the policy is active.
pub evaluated-Active :
    (now : ℕ) (policy : SecurityPolicy) (eval : PolicyEvalResult)
    → eval.scan_errors ≡ []
    → Reads
        (evaluated now policy eval).status.conditions
        ready
        condition_true
        (codes "ReconcileSuccess")
      × ((evaluated now policy eval).status.phase ≡ codes "Active")
unfolding evaluated
evaluated-Active now policy eval e =
    rw e (set-Reads now ready condition_true _ _ policy.generation _, refl)
