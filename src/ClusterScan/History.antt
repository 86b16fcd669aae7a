-- ===== src/ClusterScan/History.antt =====
-- cleanupScanReports and enforceHistoryLimit: the deletion of ScanReports.
pub mod Newest
use aotanami.SecurityPolicy.Model.{ok, err, Attempt}
use aotanami.Prelude.{
  sort_by, ◌-◌, length, ◌+◌, quote, zero, leb, codes, ◌++◌, suc, if◌then◌else◌, [], ◌%◌, Bool, ℕ,
  ◌∷◌, List, Text,
}
use aotanami.ClusterScan.Model.{int32, ScanReport}

-- What DELETE of a report returns.
pub data Deletion : Type 0 where
  deleted : Deletion
  already_gone : Deletion
  delete_failed : Text → Deletion

-- How the deletions end; `out_of_range` is the panic of an index.
pub data Ending : Type 0 where
  all_deleted : Ending
  stopped : Text → Ending
  out_of_range : Ending

-- The reports that were to be deleted, in order, and the ending.
pub record Deletions : Type 0 where
  pub requested : List ScanReport
  pub ending : Ending

-- `a <= b` and `a < b` of int32s by their bit patterns.
abbrev pub int32_le : ℕ → ℕ → Bool
int32_le a b = leb (int32 (a + 2147483648)) (int32 (b + 2147483648))

module _ (delete : ScanReport → Deletion) (prefix : Text) where
  -- Whether a deletion is followed by the next.
  abbrev pub after_deletion : ScanReport → Deletion → Deletions → Deletions
  after_deletion r deleted rest = record rest { requested = r ∷ rest.requested }
  after_deletion r already_gone rest = record rest { requested = r ∷ rest.requested }
  after_deletion r (delete_failed e) rest = record {
    requested = r ∷ [];
    ending = stopped (prefix ++ quote r.name ++ codes ": " ++ e);
  }

  -- The loop over the first reports.
  unfoldable pub delete_first : ℕ → List ScanReport → Deletions
  delete_first zero rs = record { requested = []; ending = all_deleted }
  delete_first (suc n) [] = record { requested = []; ending = out_of_range }
  delete_first (suc n) (r ∷ rs) = after_deletion r (delete r) (delete_first n rs)

abbrev pub effective_limit : ℕ → ℕ
effective_limit limit = if int32_le limit 0 then 10 else limit

module _ (delete : ScanReport → Deletion) where
  -- enforceHistoryLimit by what the list of the reports returned.
  unfoldable pub enforce_history_limit : ℕ → Attempt (List ScanReport) → Deletions
  unfolding delete_first
  enforce_history_limit limit (err e) = record {
    requested = [];
    ending = stopped (codes "listing ScanReports: " ++ e);
  }
  enforce_history_limit limit (ok items) =
      let history_limit = effective_limit limit in
      if int32_le (int32 (length items)) history_limit
      then record { requested = []; ending = all_deleted }
      else delete_first delete (codes "deleting old ScanReport ")
          (int32 (int32 (length items) + (4294967296 - history_limit)))
          (sort_by (λ r. r.creation_timestamp) items)

  -- cleanupScanReports by what the list of the reports returned.
  unfoldable pub cleanup_scan_reports : Attempt (List ScanReport) → Deletions
  unfolding delete_first
  cleanup_scan_reports (err e) = record {
    requested = [];
    ending = stopped (codes "listing ScanReports: " ++ e);
  }
  cleanup_scan_reports (ok items) =
      delete_first delete (codes "deleting ScanReport ") (length items) items
