-- ===== src/ClusterScan/Names/Bounds.antt =====
-- What bounds the names, texts and times.
use aotanami.ClusterScan.Names.{
  take_runes, truncate_runes, interval_of, is_rune_start, day, rune_count, minute,
  scan_requeue_interval, scan_report_basename,
}
use aotanami.Prelude.{
  leb→le, append-nil, leb, zero, suc, ◌==◌, ◌<◌, ◌∙◌, ap, sym, none, refl, inr, length-take, take,
  some, length-append, false, arith, [], inl, true, trim_space, ltb, Bool-cases, text_eq, ◌∷◌,
  codes, ◌≤◌, ◌++◌, ◌+◌, length, Option, ◌≡◌, ℕ, Text,
}
use aotanami.ClusterScan.Model.{ClusterScan}
use mathlib.Core.Option.{some_inj}

-- With the five characters that the API server adds, the name of a report has at most 63; it begins
-- with the whole name of the scan, if that has at most 56.
pub scan_report_basename-bounds :
    (scan_name : Text)
    → (length (scan_report_basename scan_name) + 5 ≤ 63)
      × (length scan_name ≤ 56 → scan_report_basename scan_name ≡ scan_name ++ codes "-")
unfolding scan_report_basename
scan_report_basename-bounds scan_name = elim (Bool-cases (ltb 56 (length scan_name))) [
  | inl e ↦ rw e (
    omega (arith, length-append (take 56 scan_name) (codes "-"), length-take 56 scan_name),
    λ h. absurd (ground (arith, e, h)),
  )
  | inr e ↦ rw e (ground (arith, e, length-append scan_name (codes "-")), λ h. refl)
]

-- A scan is run again after a minute at least and a day at most, and at the next time of its schedule
-- if that lies between.
pub scan_requeue_interval-bounds :
    (parse_standard : Text → Option (ℕ → ℕ)) (now : ℕ) (scan : ClusterScan)
    → let interval = scan_requeue_interval parse_standard now scan in
      (minute ≤ interval)
      × (interval ≤ day)
      × ((next : ℕ → ℕ)
          → text_eq (trim_space scan.spec.schedule) [] ≡ false
          → parse_standard (trim_space scan.spec.schedule) ≡ some next
          → now + minute ≤ next now
          → next now ≤ now + day
          → now + interval ≡ next now)
unfolding scan_requeue_interval
scan_requeue_interval-bounds parse_standard now scan =
    let s = trim_space scan.spec.schedule in
    elim (Bool-cases (text_eq s [])) [
      | inl e ↦ rw e (omega arith, omega arith, λ next h. absurd (ground (arith, e, h)))
      | inr e ↦
          let (low, high, exact) = by_schedule (parse_standard s) refl in
          rw e (low, high, λ next h. exact next)
    ]
  where
    by_schedule :
        (o : Option (ℕ → ℕ))
        → parse_standard (trim_space scan.spec.schedule) ≡ o
        → (minute ≤ interval_of parse_standard now o)
          × (interval_of parse_standard now o ≤ day)
          × ((next : ℕ → ℕ)
              → parse_standard (trim_space scan.spec.schedule) ≡ some next
              → now + minute ≤ next now
              → next now ≤ now + day
              → now + interval_of parse_standard now o ≡ next now)
    by_schedule none p = (omega arith, omega arith, λ next q. absurd (ground (arith, p, q)))
    by_schedule (some f) p = (
      ground arith,
      ground arith,
      λ next q low high.
          let same : f ≡ next = some_inj.0 (sym p ∙ q) in
          let at : f now ≡ next now = ap (λ g. g now) same in ground (arith, at, low, high),
    )

-- What take_runes leaves is a prefix that ends where a character ends.
pub record IsPrefix (n : ℕ) (s t : Text) : Type 0 where
  pub rest : Text
  pub parts : s ≡ t ++ rest
  pub count : rune_count t ≤ n
  pub boundary : (b : ℕ) (r : Text) → rest ≡ b ∷ r → is_rune_start b ≡ true

take_runes-IsPrefix : (n : ℕ) (s : Text) → IsPrefix n s (take_runes n s)
unfolding take_runes
take_runes-IsPrefix n [] = record {
  rest = [];
  parts = refl;
  count = omega arith;
  boundary = λ b r e. absurd (ground (arith, e));
}
take_runes-IsPrefix zero (b ∷ s) =
    let p = take_runes-IsPrefix zero s in
    elim (Bool-cases (is_rune_start b)) [
      | inl e ↦ rw e (record {
        rest = b ∷ s;
        parts = refl;
        count = omega arith;
        boundary = λ c r q. ground (arith, e, q);
      })
      | inr e ↦ rw e (record {
        rest = p.rest;
        parts = ap (λ x. b ∷ x) p.parts;
        count = rw e p.count;
        boundary = p.boundary;
      })
    ]
take_runes-IsPrefix (suc n) (b ∷ s) = elim (Bool-cases (is_rune_start b)) [
  | inl e ↦
      let p = take_runes-IsPrefix n s in
      let few = p.count in
      rw e (record {
        rest = p.rest;
        parts = ap (λ x. b ∷ x) p.parts;
        count = rw e (omega (arith, few));
        boundary = p.boundary;
      })
  | inr e ↦
      let p = take_runes-IsPrefix (suc n) s in
      rw e (record {
        rest = p.rest;
        parts = ap (λ x. b ∷ x) p.parts;
        count = rw e p.count;
        boundary = p.boundary;
      })
]

-- A truncated text is a prefix of the text, has no more characters than it may have, and ends where a
-- character ends.
pub truncate_runes-IsPrefix :
    (s : Text) (max_runes : ℕ) → 0 < max_runes → IsPrefix max_runes s (truncate_runes s max_runes)
unfolding truncate_runes
truncate_runes-IsPrefix s max_runes h =
    let positive : (max_runes == 0) ≡ false = ground (arith, h) in
    rw positive (elim (Bool-cases (leb (rune_count s) max_runes)) [
      | inl e ↦ rw e (record {
        rest = [];
        parts = sym (append-nil s);
        count = leb→le _ _ e;
        boundary = λ b r q. absurd (ground (arith, q));
      })
      | inr e ↦ rw e (take_runes-IsPrefix max_runes s)
    ])
