-- ===== src/Compliance/Evaluate.antt =====
-- EvaluateFindings and CalculateSummary of internal/compliance/framework.go.
pub mod Matches
pub mod Verdicts
mod Tests
use aotanami.Compliance.Controls.{
  hipaa_controls, pcidss_controls, soc2_controls, cis_kubernetes_benchmark,
}
use aotanami.Prelude.{
  ◌++◌, text_eq, ◌||◌, [], if◌then◌else◌, filter, codes, true, false, length, Bool, map, ◌+◌, ◌∷◌,
  Text, ℕ, List,
}
use aotanami.Compliance.Model.{
  iso27001, hipaa, pci_dss, soc2, cis_k8s, control_not_set, other_framework, control_not_checked,
  control_exception, control_failed, control_passed, Evidence, nist, ControlStatus, Control,
  Framework, Report, ReportSummary,
}
use aotanami.Remediation.Model.{Finding}

-- The controls of a framework; those of the CIS benchmark, if there are none.
unfoldable pub controls_of : Framework → List Control
controls_of cis_k8s = cis_kubernetes_benchmark
controls_of soc2 = soc2_controls
controls_of pci_dss = pcidss_controls
controls_of hipaa = hipaa_controls
controls_of nist = cis_kubernetes_benchmark
controls_of iso27001 = cis_kubernetes_benchmark
controls_of (other_framework name) = cis_kubernetes_benchmark

-- violatedRules, as a lookup: the findings of a rule type, in order.
pub violations_of : List Finding → Text → List Finding
violations_of findings rule_type = filter (λ f. text_eq f.rule_type rule_type) findings

abbrev pub evidence_of : ℕ → Finding → Evidence
evidence_of now f = record {
  type = codes "scan-finding";
  description = f.title;
  resource_ref =
      f.resource_kind ++ codes "/" ++ f.resource_namespace ++ codes "/" ++ f.resource_name;
  timestamp = now;
}

-- The loop over the related rule types: whether one is violated, and the evidence.
abbrev pub is_violated : List Finding → Bool
is_violated [] = false
is_violated (f ∷ fs) = true

pub match_rules : ℕ → List Finding → List Text → Bool → List Evidence → Bool × List Evidence
match_rules now findings [] failed evidence = (failed, evidence)
match_rules now findings (rule_type ∷ rule_types) failed evidence =
    let matched = violations_of findings rule_type in
    match_rules now findings rule_types (failed || is_violated matched)
      (evidence ++ map (evidence_of now) matched)

-- The body of the loop over the controls.
pub evaluate_control : ℕ → List Finding → Control → Control
unfolding match_rules violations_of
evaluate_control now findings c =
    let (failed, evidence) = match_rules now findings c.related_rule_types false c.evidence in
    record c { status = if failed then control_failed else control_passed; evidence = evidence }

-- The loop of CalculateSummary.
abbrev pub tally : ControlStatus → ReportSummary → ReportSummary
tally control_passed s = record s { passed = s.passed + 1 }
tally control_failed s = record s { failed = s.failed + 1 }
tally control_exception s = record s { exceptions = s.exceptions + 1 }
tally control_not_checked s = record s { not_checked = s.not_checked + 1 }
tally control_not_set s = s

pub tally_all : List Control → ReportSummary → ReportSummary
tally_all [] s = s
tally_all (c ∷ cs) s = tally_all cs (tally c.status s)

-- CalculateSummary
unfoldable pub calculate_summary : List Control → ReportSummary
unfolding tally_all
calculate_summary controls = tally_all controls (record {
  total_controls = length controls;
  passed = 0;
  failed = 0;
  exceptions = 0;
  not_checked = 0;
})

-- EvaluateFindings
unfoldable pub evaluate_findings : ℕ → Framework → List Finding → Report
unfolding controls_of evaluate_control calculate_summary
evaluate_findings now framework findings =
    let controls = map (evaluate_control now findings) (controls_of framework) in
    record {
      framework = framework;
      generated_at = now;
      controls = controls;
      summary = calculate_summary controls;
    }
