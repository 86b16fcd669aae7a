-- ===== src/Compliance/Evaluate/Tests.antt =====
-- A privileged pod breaches the CIS benchmark.
use aotanami.Compliance.Evaluate.Verdicts.{
  table_size, table_of, evaluate_findings_lem, is_failed, IsJudged,
}
use aotanami.Compliance.Evaluate.{controls_of, cis_k8s, evaluate_findings}
use aotanami.Prelude.{Pairwise, All, ◌+◌, filter, length, refl, ◌∷◌, ◌≡◌, [], text_eq, codes}
use aotanami.Compliance.Model.{cis_k8s, Report}
use aotanami.Remediation.Model.{Finding}

abbrev privileged : Finding
privileged = record {
  rule_type = codes "container-security-context";
  severity = codes "critical";
  title = codes "runs as privileged";
  description = [];
  resource_kind = codes "Pod";
  resource_namespace = codes "prod";
  resource_name = codes "gateway";
  recommendation = [];
}

abbrev report : Report
report = evaluate_findings 5 cis_k8s (privileged ∷ [])

evaluate_findings_lem_example :
    Pairwise (IsJudged 5 (privileged ∷ [])) (controls_of cis_k8s) report.controls
    × All (λ c. c.framework ≡ table_of cis_k8s) report.controls
    × (length report.controls ≡ table_size cis_k8s)
    × (report.summary.total_controls ≡ table_size cis_k8s)
    × (report.summary.failed ≡ length (filter (λ c. is_failed c.status) report.controls))
    × (report.summary.failed + report.summary.passed ≡ report.summary.total_controls)
evaluate_findings_lem_example = evaluate_findings_lem 5 cis_k8s (privileged ∷ [])

-- Five of its controls ask for the rule type.
five_of_fifteen : (report.summary.failed ≡ 5) × (report.summary.total_controls ≡ 15)
unfolding evaluate_findings text_eq
five_of_fifteen = (refl, refl)
