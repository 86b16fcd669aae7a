-- ===== src/SecurityPolicy/Ingest/Grouped.antt =====
-- Two findings about one pod leave an open incident of the pod.
use aotanami.Correlator.Severity.{InPlace}
use aotanami.Correlator.Grouping.{
  ingest-HasSince, ingest_first, ingest_second, ingest-window, ingest-HasOpen, HasSince, HasOpen,
}
use aotanami.SecurityPolicy.Ingest.{event_of, ingest_all}
use aotanami.Remediation.Model.{Finding}
use aotanami.Prelude.{
  inr, [], ◌∙◌, inl, text_eq_iff, Bool-cases, suc, refl, ◌&&◌, arith, ◌+◌, text_eq, ◌∷◌, filter,
  true, ◌≡◌, ◌<◌, Bool, length, List, ◌≤◌, ℕ, Text,
}
use aotanami.Correlator.{ingest, Engine}
use aotanami.SecurityPolicy.Model.{SecurityPolicy}

-- The finding is about the resource.
abbrev pub is_about : Text → Text → Finding → Bool
is_about ns name f = text_eq f.resource_namespace ns && text_eq f.resource_name name

-- Each of the first `n` readings of the clock comes within the window of all before it.
abbrev pub IsPrompt : (ℕ → ℕ) → ℕ → ℕ → Type 0
IsPrompt clock window n = (k j : ℕ) → k ≤ j → j < n → clock j < clock k + window

module _ (policy : SecurityPolicy) (clock : ℕ → ℕ) (ns name : Text) where
  event-InPlace : (f : Finding) → is_about ns name f ≡ true → InPlace ns name (event_of policy f)
  event-InPlace f h =
      ground (arith, text_eq_iff f.resource_namespace ns, text_eq_iff f.resource_name name)

  ingest_all-HasOpen :
      (i : ℕ) (fs : List Finding) (e : Engine)
      → HasOpen ns name e
      → HasOpen ns name (ingest_all policy clock i fs e)
  unfolding ingest_all
  ingest_all-HasOpen i [] e m = m
  ingest_all-HasOpen i (f ∷ fs) e m =
      ingest_all-HasOpen (suc i) fs (ingest (clock i) (event_of policy f) e).0
        (ingest-HasOpen ns name (clock i) (event_of policy f) e m)

  -- One more finding is enough after the `k`-th was ingested.
  ingest_second_all :
      (k i window : ℕ) (fs : List Finding) (e : Engine)
      → e.window ≡ window
      → 0 < window
      → ((j : ℕ) → i ≤ j → j < i + length fs → clock j < clock k + window)
      → HasSince ns name (clock k) e
      → 1 ≤ length (filter (is_about ns name) fs)
      → HasOpen ns name (ingest_all policy clock i fs e)
  unfolding ingest_all
  ingest_second_all k i window [] e w positive prompt m h = absurd (ground (arith, h))
  ingest_second_all k i window (f ∷ fs) e w positive prompt m h =
      let next = (ingest (clock i) (event_of policy f) e).0 in
      let now : clock i < clock k + window = prompt i (omega arith) (omega arith) in
      elim (Bool-cases (is_about ns name f)) [
        | inl here ↦ ingest_all-HasOpen (suc i) fs next (
            ingest_second ns name (clock i) (event_of policy f) (clock k) e refl
              (event-InPlace f here) (omega arith) (omega arith) m)
        | inr elsewhere ↦
            ingest_second_all k (suc i) window fs next
              (ingest-window (clock i) (event_of policy f) e ∙ w) positive
              (λ j a b. prompt j (omega arith) (omega arith))
              (ingest-HasSince ns name (clock i) (event_of policy f) (clock k) e (omega arith) m)
              (ground arith)
      ]

  ingest_all_from :
      (i window : ℕ) (fs : List Finding) (e : Engine)
      → e.window ≡ window
      → IsPrompt clock window (i + length fs)
      → 2 ≤ length (filter (is_about ns name) fs)
      → HasOpen ns name (ingest_all policy clock i fs e)
  unfolding ingest_all
  ingest_all_from i window [] e w prompt h = absurd (ground (arith, h))
  ingest_all_from i window (f ∷ fs) e w prompt h =
      let next = (ingest (clock i) (event_of policy f) e).0 in
      let now : clock i < clock i + window = prompt i i (omega arith) (omega arith) in
      let w' = ingest-window (clock i) (event_of policy f) e ∙ w in
      elim (Bool-cases (is_about ns name f)) [
        | inl here ↦
            ingest_second_all i (suc i) window fs next w' (omega arith)
              (λ j a b. prompt i j (omega arith) (omega arith))
              (ingest_first ns name (clock i) (event_of policy f) e refl (event-InPlace f here)
                (omega arith))
              (ground arith)
        | inr elsewhere ↦
            ingest_all_from (suc i) window fs next w' (λ k j a b. prompt k j a (omega arith))
              (ground arith)
      ]

-- Whatever the correlator holds: if two of the findings are about one resource, and all of them are
-- ingested within its window, then an open incident of that resource is in it afterwards.
pub two_findings_are_grouped :
    (policy : SecurityPolicy) (clock : ℕ → ℕ) (ns name : Text) (fs : List Finding) (e : Engine)
    → IsPrompt clock e.window (length fs)
    → 2 ≤ length (filter (is_about ns name) fs)
    → HasOpen ns name (ingest_all policy clock 0 fs e)
two_findings_are_grouped policy clock ns name fs e prompt h =
    ingest_all_from policy clock ns name 0 e.window fs e refl
      (λ k j a b. prompt k j a (omega arith)) h
