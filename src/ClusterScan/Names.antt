-- ===== src/ClusterScan/Names.antt =====
-- The names, texts and times that clusterscan_controller.go computes.
pub mod Bounds
use aotanami.Prelude.{
  zero, codes, none, ◌++◌, suc, leb, ◌-◌, [], filter, text_eq, ◌||◌, take, some, trim_space, ◌==◌,
  Bool, ◌*◌, ◌∷◌, ltb, length, ℕ, Option, if◌then◌else◌, Text,
}
use aotanami.ClusterScan.Model.{ClusterScan}

-- scanReportBasename
unfoldable pub scan_report_basename : Text → Text
scan_report_basename scan_name =
    (if ltb 56 (length scan_name) then take 56 scan_name else scan_name) ++ codes "-"

-- A byte that begins a character of UTF-8.
abbrev pub is_rune_start : ℕ → Bool
is_rune_start b = ltb b 128 || leb 192 b

abbrev pub rune_count : Text → ℕ
rune_count s = length (filter is_rune_start s)

-- The first characters of a text.
unfoldable pub take_runes : ℕ → Text → Text
take_runes n [] = []
take_runes zero (b ∷ s) = if is_rune_start b then [] else b ∷ take_runes zero s
take_runes (suc n) (b ∷ s) = b ∷ take_runes (if is_rune_start b then n else suc n) s

-- truncateRunes, on a text that is valid UTF-8.
unfoldable pub truncate_runes : Text → ℕ → Text
unfolding take_runes
truncate_runes s max_runes =
    if max_runes == 0
    then []
    else if leb (rune_count s) max_runes
    then s
    else take_runes max_runes s

abbrev pub minute : ℕ
minute = 60 * 1000000000

abbrev pub day : ℕ
day = 24 * 60 * minute

abbrev pub default_scan_interval : ℕ
default_scan_interval = 30 * minute

-- The interval to the next time of a schedule, between a minute and a day.
abbrev pub clamped : ℕ → ℕ
clamped interval =
    let long = if ltb interval minute then minute else interval in
    if ltb day long then day else long

module _ (parse_standard : Text → Option (ℕ → ℕ)) where
  abbrev pub interval_of : ℕ → Option (ℕ → ℕ) → ℕ
  interval_of now none = default_scan_interval
  interval_of now (some next) = clamped (next now - now)

  -- scanRequeueInterval, of a scan that is not nil. `parse_standard` is cron.ParseStandard, whose
  -- result maps a time to the next one of the schedule. A next time that is not later, as the zero
  -- time that stands for none, gives 0 here and a negative interval there, both below a minute.
  unfoldable pub scan_requeue_interval : ℕ → ClusterScan → ℕ
  unfolding trim_space
  scan_requeue_interval now scan =
      let sch = trim_space scan.spec.schedule in
      if text_eq sch [] then default_scan_interval else interval_of now (parse_standard sch)
