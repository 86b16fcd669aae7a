-- ===== src/SecurityPolicy/Scan/Sorted.antt =====
-- What the controller finds: everything that its rules' scanners find at its severity or worse, the
-- worst first.
use aotanami.Scanner.Pod.{Pod}
use aotanami.Remediation.Model.{Finding}
use aotanami.Prelude.{
  Elem-sort_by_iff, sort_by, length-sort_by, IsSortedBy, sort_by-IsSortedBy, Elem-filter_iff,
  Any-iff, subst, Elem-gather_iff, ◌∙◌, gather, none, sym, Any, Option, some, leb→le, refl, leb, ap,
  ◌≤◌, ◌↔◌, [], arith, ◌≡◌, Elem, length, ◌∷◌, List,
}
use aotanami.SecurityPolicy.Scan.{
  kept, findings_of, rule_findings, run_policy_scanners, severity_order, Finding, Pod, sort,
}
use aotanami.Scanner.Registry.{failed, ScanResult, found, lookup, Scanner, Registry}
use mathlib.Core.Option.{some_inj}
use aotanami.SecurityPolicy.Model.{SecurityRule, SecurityPolicy}

-- No finding stands before a worse one.
abbrev pub IsSorted : List Finding → Type 0
IsSorted fs = IsSortedBy (λ f. severity_order f.severity) fs

pub length-sort : (fs : List Finding) → length (sort fs) ≡ length fs
unfolding sort
length-sort fs = length-sort_by (λ f. severity_order f.severity) fs

pub sort-nil_iff : (fs : List Finding) → (sort fs ≡ []) ↔ (fs ≡ [])
sort-nil_iff [] = unfold sort sort_by in ((λ e. e), λ e. e)
sort-nil_iff (f ∷ fs) = (
  (λ e. absurd (omega (arith, ap (length {A = Finding}) e, length-sort (f ∷ fs)))),
  λ e. absurd (ground (arith, e)),
)

-- What a rule finds: its scanner is registered, does not fail, and finds it at a severity that the
-- policy reports.
pub record IsFound (registry : Registry) (policy : SecurityPolicy) (pods : List Pod) (f : Finding)
    (rule : SecurityRule) : Type 0 where
  pub scanner : Scanner
  pub findings : List Finding
  pub registered : lookup rule.type registry ≡ some scanner
  pub scanned : scanner.scan pods rule.params ≡ found findings
  pub listed : Elem f findings
  pub severe : severity_order f.severity ≤ severity_order policy.spec.severity

findings_in : ScanResult → List Finding
findings_in (found fs) = fs
findings_in (failed e) = []

found_inj : (fs gs : List Finding) → found fs ≡ found gs → fs ≡ gs
unfolding findings_in
found_inj fs gs e = ap findings_in e

module _ (registry : Registry) (policy : SecurityPolicy) (pods : List Pod) (f : Finding) where
  kept_iff :
      (rule : SecurityRule) (s : Scanner) (r : ScanResult)
      → lookup rule.type registry ≡ some s
      → s.scan pods rule.params ≡ r
      → Elem f (kept (severity_order policy.spec.severity) r) ↔ IsFound registry policy pods f rule
  kept_iff rule s (failed t) e scanned = (
    (λ m. absurd m),
    λ h.
        let same : s ≡ h.scanner = some_inj.0 (sym e ∙ h.registered) in
        let scanned' : h.scanner.scan pods rule.params ≡ failed t =
          subst (λ x. x.scan pods rule.params ≡ failed t) same scanned in
        absurd (ground (arith, scanned', h.scanned)),
  )
  kept_iff rule s (found fs) e scanned =
      let limit = severity_order policy.spec.severity in
      let (to, from) = Elem-filter_iff (λ g. leb (severity_order g.severity) limit) f fs in
      (
        (λ m.
            let (listed, severe) = to m in
            record {
              scanner = s;
              findings = fs;
              registered = e;
              scanned = scanned;
              listed = listed;
              severe = leb→le _ _ severe;
            }),
        λ h.
            let same : s ≡ h.scanner = some_inj.0 (sym e ∙ h.registered) in
            let scanned' : h.scanner.scan pods rule.params ≡ found fs =
              subst (λ x. x.scan pods rule.params ≡ found fs) same scanned in
            let fs_same : h.findings ≡ fs = found_inj h.findings fs (sym h.scanned ∙ scanned') in
            let severe = h.severe in from (subst (Elem f) fs_same h.listed, ground arith),
      )

  findings_of_iff :
      (rule : SecurityRule) (o : Option Scanner)
      → lookup rule.type registry ≡ o
      → Elem f (findings_of registry policy pods rule o) ↔ IsFound registry policy pods f rule
  findings_of_iff rule none e = ((λ m. absurd m), λ h. absurd (ground (arith, e, h.registered)))
  findings_of_iff rule (some s) e = kept_iff rule s (s.scan pods rule.params) e refl

  rule_findings_iff :
      (rule : SecurityRule)
      → Elem f (rule_findings registry policy pods rule) ↔ IsFound registry policy pods f rule
  unfolding rule_findings
  rule_findings_iff rule = findings_of_iff rule (lookup rule.type registry) refl

-- The result is sorted, and holds exactly what some rule of the policy finds.
pub run_policy_scanners_lem :
    (registry : Registry) (policy : SecurityPolicy) (pods : List Pod)
    → let eval = run_policy_scanners registry policy pods in
      IsSorted eval.findings
      × ((f : Finding)
          → Elem f eval.findings ↔ Any (IsFound registry policy pods f) policy.spec.rules)
unfolding run_policy_scanners sort
run_policy_scanners_lem registry policy pods =
    let all = gather (rule_findings registry policy pods) policy.spec.rules in
    (
      sort_by-IsSortedBy (λ g. severity_order g.severity) all,
      λ f.
          let (to, from) = Elem-sort_by_iff (λ g. severity_order g.severity) f all in
          let (to', from') =
            Elem-gather_iff (rule_findings registry policy pods) f policy.spec.rules in
          let (to'', from'') =
            Any-iff _ _ (rule_findings_iff registry policy pods f) policy.spec.rules in
          ((λ m. to'' (to' (to m))), λ m. from (from' (from'' m))),
    )
