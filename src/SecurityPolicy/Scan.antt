-- ===== src/SecurityPolicy/Scan.antt =====
-- runPolicyScanners: the findings of the policy's rules, at its severity or worse, the worst first.
pub mod Sorted
pub mod Clean
pub mod Errors
use aotanami.Scanner.Pod.{Pod}
use aotanami.Remediation.Model.{Finding}
use aotanami.Prelude.{
  sort_by, quote, none, some, codes, Option, ◌++◌, [], gather, text_eq, leb, ◌∷◌, if◌then◌else◌,
  filter, List, ℕ, Text,
}
use aotanami.SecurityPolicy.Model.{SecurityRule, SecurityPolicy}
use aotanami.Scanner.Registry.{lookup, failed, found, ScanResult, Registry, Scanner}

-- severityOrder; a missing key is 0.
unfoldable pub severity_order : Text → ℕ
severity_order s =
    if text_eq s (codes "critical")
    then 0
    else if text_eq s (codes "high")
    then 1
    else if text_eq s (codes "medium")
    then 2
    else if text_eq s (codes "low")
    then 3
    else if text_eq s (codes "info")
    then 4
    else 0

-- policyEvalResult
pub record PolicyEvalResult : Type 0 where
  pub findings : List Finding
  pub scan_errors : List Text

-- The loop over the findings of one scanner.
abbrev pub within : ℕ → List Finding → List Finding
within min_severity fs = filter (λ f. leb (severity_order f.severity) min_severity) fs

-- What a rule adds to the findings and to the errors, by its scanner and the result of Scan.
abbrev pub kept : ℕ → ScanResult → List Finding
kept min_severity (found fs) = within min_severity fs
kept min_severity (failed e) = []

abbrev pub complaint : Scanner → ScanResult → List Text
complaint s (found fs) = []
complaint s (failed e) = (s.name ++ codes ": " ++ e) ∷ []

module _ (registry : Registry) (policy : SecurityPolicy) (pods : List Pod) where
  abbrev pub findings_of : SecurityRule → Option Scanner → List Finding
  findings_of rule none = []
  findings_of rule (some s) = kept (severity_order policy.spec.severity) (s.scan pods rule.params)

  abbrev pub errors_of : SecurityRule → Option Scanner → List Text
  errors_of rule none = []
  errors_of rule (some s) = complaint s (s.scan pods rule.params)

  -- The body of the loop over the rules.
  pub rule_findings : SecurityRule → List Finding
  rule_findings rule = findings_of rule (lookup rule.type registry)

  pub rule_errors : SecurityRule → List Text
  rule_errors rule = errors_of rule (lookup rule.type registry)

-- The events of the recorder about failed scanners are in Reconcile: `scanner_failed` is their text.
abbrev pub scanner_failed : Scanner → ScanResult → List Text
scanner_failed s (found fs) = []
scanner_failed s (failed e) = (codes "Scanner " ++ quote s.name ++ codes " failed: " ++ e) ∷ []

abbrev pub failures_of : List Pod → SecurityRule → Option Scanner → List Text
failures_of pods rule none = []
failures_of pods rule (some s) = scanner_failed s (s.scan pods rule.params)

-- sort.Slice by severityOrder, as an insertion sort.
pub sort : List Finding → List Finding
unfolding sort_by
sort fs = sort_by (λ f. severity_order f.severity) fs

-- runPolicyScanners
unfoldable pub run_policy_scanners : Registry → SecurityPolicy → List Pod → PolicyEvalResult
unfolding rule_findings rule_errors sort
run_policy_scanners registry policy pods = record {
  findings = sort (gather (rule_findings registry policy pods) policy.spec.rules);
  scan_errors = gather (rule_errors registry policy pods) policy.spec.rules;
}
