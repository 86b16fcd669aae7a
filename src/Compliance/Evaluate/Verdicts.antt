-- ===== src/Compliance/Evaluate/Verdicts.antt =====
-- What a compliance report says.
use aotanami.Compliance.Controls.{cis_kubernetes_benchmark}
use aotanami.Compliance.Evaluate.Matches.{
  IsProof, IsBreached, match_rules-failed, match_rules-evidence,
}
use aotanami.Prelude.{
  map-Pairwise, Pairwise, ◌∙◌, length-map, filter, ◌+◌, if◌then◌else◌, All, length, [], ◌∷◌, refl,
  arith, inr, map, Elem, inl, ◌↔◌, ◌⊎◌, Bool-cases, true, ◌≡◌, false, ℕ, Bool, List,
}
use aotanami.Compliance.Evaluate.{
  cis_kubernetes_benchmark, other_framework, cis_k8s, tally, calculate_summary, controls_of,
  tally_all, ControlStatus, evaluate_findings, control_passed, control_failed, Evidence,
  evaluate_control, match_rules,
}
use aotanami.Compliance.Model.{
  iso27001, hipaa, nist, pci_dss, cis_k8s, soc2, ControlStatus, control_passed, control_failed,
  Evidence, Control, Framework, ReportSummary,
}
use aotanami.Remediation.Model.{Finding}

-- The control after the evaluation: the same one, failed if it is breached and otherwise passed, with
-- the evidence that it had and that of each finding of its rule types.
pub record IsJudged (now : ℕ) (findings : List Finding) (c c' : Control) : Type 0 where
  pub same_id : c'.id ≡ c.id
  pub same_framework : c'.framework ≡ c.framework
  pub failed_iff : (c'.status ≡ control_failed) ↔ IsBreached findings c
  pub passed_iff : (c'.status ≡ control_passed) ↔ ¬ IsBreached findings c
  pub evidence_iff :
      (ev : Evidence)
      → Elem ev c'.evidence ↔ (Elem ev c.evidence ⊎ IsProof now findings c.related_rule_types ev)

status_iff :
    (b : Bool) (P : Type 0)
    → (b ≡ true) ↔ ((false ≡ true) ⊎ P)
    → (((if b then control_failed else control_passed) ≡ control_failed) ↔ P)
      × (((if b then control_failed else control_passed) ≡ control_passed) ↔ ¬ P)
status_iff true P (to, from) =
    let holds : P = elim (to refl) [ inl e ↦ absurd (ground (arith, e)) | inr p ↦ p ] in
    (((λ e. holds), λ p. refl), ((λ e. absurd (ground (arith, e))), λ n. absurd (n holds)))
status_iff false P (to, from) = (
  ((λ e. absurd (ground (arith, e))), λ p. absurd (ground (arith, from (inr p)))),
  ((λ e p. absurd (ground (arith, from (inr p)))), λ n. refl),
)

evaluate_control-IsJudged :
    (now : ℕ) (findings : List Finding) (c : Control)
    → IsJudged now findings c (evaluate_control now findings c)
unfolding evaluate_control
evaluate_control-IsJudged now findings c =
    let failed = (match_rules now findings c.related_rule_types false c.evidence).0 in
    let (failed_iff, passed_iff) =
      status_iff failed (IsBreached findings c)
        (match_rules-failed now findings c.related_rule_types false c.evidence) in
    record {
      same_id = refl;
      same_framework = refl;
      failed_iff = failed_iff;
      passed_iff = passed_iff;
      evidence_iff = match_rules-evidence now findings c.related_rule_types false c.evidence;
    }

abbrev pub is_failed : ControlStatus → Bool
is_failed control_failed = true
is_failed _ = false

abbrev IsDecided : Control → Type 0
IsDecided c = (c.status ≡ control_failed) ⊎ (c.status ≡ control_passed)

evaluate_control-IsDecided :
    (now : ℕ) (findings : List Finding) (c : Control) → IsDecided (evaluate_control now findings c)
unfolding evaluate_control
evaluate_control-IsDecided now findings c =
    elim (Bool-cases (match_rules now findings c.related_rule_types false c.evidence).0) [
      | inl e ↦ rw e (inl refl)
      | inr e ↦ rw e (inr refl)
    ]

tally_all-IsDecided :
    (cs : List Control) (s : ReportSummary)
    → All IsDecided cs
    → let t = tally_all cs s in
      (t.failed + t.passed ≡ s.failed + s.passed + length cs)
      × (t.failed ≡ s.failed + length (filter (λ c. is_failed c.status) cs))
      × (t.total_controls ≡ s.total_controls)
unfolding tally_all
tally_all-IsDecided [] s h = (omega arith, omega arith, refl)
tally_all-IsDecided (c ∷ cs) s (h, hs) =
    let (sum, count, total) = tally_all-IsDecided cs (tally c.status s) hs in
    elim h [
      | inl e ↦ rw e (omega (arith, rw e at sum), omega (arith, rw e at count), rw e at total)
      | inr e ↦ rw e (omega (arith, rw e at sum), omega (arith, rw e at count), rw e at total)
    ]

map-IsDecided :
    (now : ℕ) (findings : List Finding) (cs : List Control)
    → All IsDecided (map (evaluate_control now findings) cs)
map-IsDecided now findings [] = tt
map-IsDecided now findings (c ∷ cs) =
    (evaluate_control-IsDecided now findings c, map-IsDecided now findings cs)

-- The framework that a report's controls belong to, and how many it has: NIST, ISO 27001 and a framework
-- of another name have no controls, and get those of the CIS benchmark.
abbrev pub table_of : Framework → Framework
table_of soc2 = soc2
table_of pci_dss = pci_dss
table_of hipaa = hipaa
table_of _ = cis_k8s

abbrev pub table_size : Framework → ℕ
table_size soc2 = 10
table_size pci_dss = 10
table_size hipaa = 10
table_size _ = 15

cis_kubernetes_benchmark-framework : All (λ c. c.framework ≡ cis_k8s) cis_kubernetes_benchmark
cis_kubernetes_benchmark-framework = (
  refl,
  (
    refl,
    (
      refl,
      (
        refl,
        (refl, (refl, (refl, (refl, (refl, (refl, (refl, (refl, (refl, (refl, (refl, tt))))))))))),
      ),
    ),
  ),
)

controls_of-table_of :
    (framework : Framework)
    → All (λ c. c.framework ≡ table_of framework) (controls_of framework)
      × (length (controls_of framework) ≡ table_size framework)
unfolding controls_of
controls_of-table_of cis_k8s = (cis_kubernetes_benchmark-framework, refl)
controls_of-table_of nist = (cis_kubernetes_benchmark-framework, refl)
controls_of-table_of soc2 =
    ((refl, (refl, (refl, (refl, (refl, (refl, (refl, (refl, (refl, (refl, tt)))))))))), refl)
controls_of-table_of pci_dss =
    ((refl, (refl, (refl, (refl, (refl, (refl, (refl, (refl, (refl, (refl, tt)))))))))), refl)
controls_of-table_of hipaa =
    ((refl, (refl, (refl, (refl, (refl, (refl, (refl, (refl, (refl, (refl, tt)))))))))), refl)
controls_of-table_of iso27001 = (cis_kubernetes_benchmark-framework, refl)
controls_of-table_of (other_framework name) = (cis_kubernetes_benchmark-framework, refl)

Pairwise-framework :
    (now : ℕ) (findings : List Finding) (f : Framework) (cs ds : List Control)
    → Pairwise (IsJudged now findings) cs ds
    → All (λ c. c.framework ≡ f) cs
    → All (λ c. c.framework ≡ f) ds
Pairwise-framework now findings f [] [] p h = tt
Pairwise-framework now findings f [] (d ∷ ds) p h = absurd p
Pairwise-framework now findings f (c ∷ cs) [] p h = absurd p
Pairwise-framework now findings f (c ∷ cs) (d ∷ ds) (judged, p) (e, h) =
    (judged.same_framework ∙ e, Pairwise-framework now findings f cs ds p h)

-- A report has the controls that the code lists for its framework, in order, each failed exactly if
-- there is a finding of one of its rule types and otherwise passed, with the evidence of exactly
-- those findings besides its own. They are the 15 of the CIS benchmark, or the 10 of SOC 2, PCI-DSS
-- or HIPAA for a report of these; a report of NIST, ISO 27001 or any other framework has those of
-- the CIS benchmark. The summary counts all of them, as many failed as there are, and the others
-- passed.
pub evaluate_findings_lem :
    (now : ℕ) (framework : Framework) (findings : List Finding)
    → let r = evaluate_findings now framework findings in
      Pairwise (IsJudged now findings) (controls_of framework) r.controls
      × All (λ c. c.framework ≡ table_of framework) r.controls
      × (length r.controls ≡ table_size framework)
      × (r.summary.total_controls ≡ table_size framework)
      × (r.summary.failed ≡ length (filter (λ c. is_failed c.status) r.controls))
      × (r.summary.failed + r.summary.passed ≡ r.summary.total_controls)
unfolding evaluate_findings
evaluate_findings_lem now framework findings =
    let controls = controls_of framework in
    let f = evaluate_control now findings in
    let start : ReportSummary = record {
      total_controls = length (map f controls);
      passed = 0;
      failed = 0;
      exceptions = 0;
      not_checked = 0;
    } in
    let (sum, count, total) =
      tally_all-IsDecided (map f controls) start (map-IsDecided now findings controls) in
    let judged =
      map-Pairwise (IsJudged now findings) f (evaluate_control-IsJudged now findings) controls in
    let (framed, size) = controls_of-table_of framework in
    (
      judged,
      Pairwise-framework now findings (table_of framework) controls (map f controls) judged framed,
      omega (arith, length-map f controls, size),
      unfold calculate_summary in omega (arith, total, length-map f controls, size),
      unfold calculate_summary in omega (arith, count),
      unfold calculate_summary in omega (arith, sum, total),
    )
