-- ===== src/ClusterScan/Execute/Counts.antt =====
-- The counts of severities, one finding at a time.
use aotanami.Remediation.Model.{Finding}
use aotanami.ClusterScan.Execute.{int32, Finding, count_severity}
use aotanami.Prelude.{
  ◌∙◌, text_eq_iff, length-append, ap, refl, ◌+◌, ◌∷◌, true, arith, codes, length, false, [], ◌++◌,
  if◌then◌else◌, ◌≡◌, filter, ℕ, text_eq, Bool, List, Text,
}
use aotanami.ClusterScan.Model.{int32, ScanSummary}

abbrev pub count : Text → List Finding → ℕ
count severity fs = length (filter (λ f. text_eq f.severity severity) fs)

-- A text is at most one of two that differ.
apart : (s a b : Text) → text_eq a b ≡ false → text_eq s a ≡ true → text_eq s b ≡ false
apart s a b h e = ap (λ x. text_eq x b) ((text_eq_iff s a).0 e) ∙ h

pub filter-append :
    {A : Type 0} (p : A → Bool) (xs ys : List A) → filter p (xs ++ ys) ≡ filter p xs ++ filter p ys
filter-append p [] ys = refl
filter-append p (x ∷ xs) ys = ground (arith, filter-append p xs ys)

-- A count after one more finding.
abbrev raised : Bool → ℕ → ℕ
raised b n = if b then int32 (n + 1) else n

pub count-snoc :
    (severity : Text) (fs : List Finding) (f : Finding) (n : ℕ)
    → n ≡ int32 (count severity fs)
    → raised (text_eq f.severity severity) n ≡ int32 (count severity (fs ++ f ∷ []))
count-snoc severity fs f n e = ground (
  arith,
  e,
  filter-append (λ g. text_eq g.severity severity) fs (f ∷ []),
  length-append (filter (λ g. text_eq g.severity severity) fs)
      (filter (λ g. text_eq g.severity severity) (f ∷ [])),
)

module _ (s : Text) (m : ScanSummary) where
  pub critical-step :
      (count_severity s m).critical ≡ raised (text_eq s (codes "critical")) m.critical
  unfolding count_severity
  critical-step = ground arith

  pub high-step : (count_severity s m).high ≡ raised (text_eq s (codes "high")) m.high
  unfolding count_severity
  high-step = ground (arith, apart s (codes "critical") (codes "high") (unfold text_eq in refl))

  pub medium-step : (count_severity s m).medium ≡ raised (text_eq s (codes "medium")) m.medium
  unfolding count_severity
  medium-step = ground (
    arith,
    apart s (codes "critical") (codes "medium") (unfold text_eq in refl),
    apart s (codes "high") (codes "medium") (unfold text_eq in refl),
  )

  pub low-step : (count_severity s m).low ≡ raised (text_eq s (codes "low")) m.low
  unfolding count_severity
  low-step = ground (
    arith,
    apart s (codes "critical") (codes "low") (unfold text_eq in refl),
    apart s (codes "high") (codes "low") (unfold text_eq in refl),
    apart s (codes "medium") (codes "low") (unfold text_eq in refl),
  )

  pub info-step : (count_severity s m).info ≡ raised (text_eq s (codes "info")) m.info
  unfolding count_severity
  info-step = ground (
    arith,
    apart s (codes "critical") (codes "info") (unfold text_eq in refl),
    apart s (codes "high") (codes "info") (unfold text_eq in refl),
    apart s (codes "medium") (codes "info") (unfold text_eq in refl),
    apart s (codes "low") (codes "info") (unfold text_eq in refl),
  )
