-- ===== src/ClusterScan/Execute/Tally.antt =====
-- What a scan reports, counts and announces.
use aotanami.ClusterScan.Execute.Counts.{count}
use aotanami.Scanner.Pod.{Pod}
use aotanami.ClusterScan.Execute.{
  report_finding, int32, lookup, failed, Pod, found, ScanRun, ClusterScan, add_findings,
}
use aotanami.Scanner.Registry.{Scanner, Registry, ScanResult}
use aotanami.Remediation.Model.{Finding}
use aotanami.Prelude.{
  Bool, text_eq, ◌||◌, filter, none, some, codes, map, ◌∷◌, gather, Option, ◌≡◌, [], ◌++◌, List,
  Text,
}
use aotanami.ClusterScan.Model.{int32, ClusterScan}

-- The findings of a named scanner, none if it is not registered or fails; and its error.
abbrev pub found_in : ScanResult → List Finding
found_in (found fs) = fs
found_in (failed e) = []

abbrev pub error_in : Scanner → ScanResult → List Text
error_in s (found fs) = []
error_in s (failed e) = (s.name ++ codes ": " ++ e) ∷ []

module _ (registry : Registry) (pods : List Pod) where
  abbrev pub found_by : Option Scanner → List Finding
  found_by none = []
  found_by (some s) = found_in (s.scan pods [])

  abbrev pub error_by : Option Scanner → List Text
  error_by none = []
  error_by (some s) = error_in s (s.scan pods [])

  -- The findings of all named scanners, in order, and the errors.
  pub all_found : List Text → List Finding
  all_found names = gather (λ name. found_by (lookup name registry)) names

  pub all_errors : List Text → List Text
  all_errors names = gather (λ name. error_by (lookup name registry)) names

-- The severities that are announced.
abbrev is_urgent : Finding → Bool
is_urgent f = text_eq f.severity (codes "critical") || text_eq f.severity (codes "high")

-- The run has the findings and the errors, and counts the findings of each severity.
pub record IsTally (fs : List Finding) (errors : List Text) (run : ScanRun) : Type 0 where
  pub findings : run.findings ≡ map report_finding fs
  pub emitted : run.emitted ≡ filter is_urgent fs
  pub scan_errors : run.scan_errors ≡ errors
  pub critical : run.summary.critical ≡ int32 (count (codes "critical") fs)
  pub high : run.summary.high ≡ int32 (count (codes "high") fs)
  pub medium : run.summary.medium ≡ int32 (count (codes "medium") fs)
  pub low : run.summary.low ≡ int32 (count (codes "low") fs)
  pub info : run.summary.info ≡ int32 (count (codes "info") fs)

-- One finding more.
add_finding : Finding → ScanRun → ScanRun
add_finding f run = add_findings (f ∷ []) run
