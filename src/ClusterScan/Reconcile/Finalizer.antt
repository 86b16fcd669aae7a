-- ===== src/ClusterScan/Reconcile/Finalizer.antt =====
-- The finalizer of a deleted scan, and what a scan that runs leaves behind.
use aotanami.SecurityPolicy.Model.{Attempt}
use aotanami.ClusterScan.History.Newest.{cleanup_scan_reports_lem}
use aotanami.ClusterScan.Targets.{ScopeApi}
use aotanami.Scanner.Registry.{Registry}
use aotanami.ClusterScan.History.{
  out_of_range, already_gone, stopped, deleted, Ending, all_deleted, after_deletion, delete_failed,
  cleanup_scan_reports, delete_first, Deletions, Deletion,
}
use aotanami.ClusterScan.Reconcile.{
  fetched, done, delete_scan, ends, err, reconcile, Attempt, attempt, finalize, delete_report,
  ScanClock, ScanApi, complete_report, ScopeApi, ok, create_report, deletion_writes, update_status,
  Registry, Deletion, update_scan, Write,
}
use aotanami.Prelude.{
  none, Bool-cases, some, ◌∙◌, true, ap, zero, sym, suc, length, codes, refl, subst, false, All,
  arith, [], inr, inl, ◌≡◌, ◌∷◌, ◌⊎◌, ◌≢◌, ◌++◌, Any, ℕ, List, Option, Text,
}
use aotanami.ClusterScan.Model.{ScanReport, ClusterScan}

-- The deletion did not fail.
abbrev pub Succeeds : (ScanReport → Deletion) → ScanReport → Type 0
Succeeds delete r = (e : Text) → delete r ≢ delete_failed e

module _ (delete : ScanReport → Deletion) (prefix : Text) where
  after_deletion-Succeeds :
      (r : ScanReport) (o : Deletion) (d : Deletions)
      → (after_deletion delete prefix r o d).ending ≡ all_deleted
      → ((e : Text) → o ≢ delete_failed e)
        × (d.ending ≡ all_deleted)
        × ((after_deletion delete prefix r o d).requested ≡ r ∷ d.requested)
  after_deletion-Succeeds r deleted d h = ((λ e x. absurd (ground (arith, x))), h, refl)
  after_deletion-Succeeds r already_gone d h = ((λ e x. absurd (ground (arith, x))), h, refl)
  after_deletion-Succeeds r (delete_failed t) d h = absurd (ground (arith, h))

  delete_first-Succeeds :
      (n : ℕ) (rs : List ScanReport)
      → (delete_first delete prefix n rs).ending ≡ all_deleted
      → All (Succeeds delete) (delete_first delete prefix n rs).requested
  unfolding delete_first
  delete_first-Succeeds zero rs h = tt
  delete_first-Succeeds (suc n) [] h = absurd (ground (arith, h))
  delete_first-Succeeds (suc n) (r ∷ rs) h =
      let (ok_here, later, same) =
        after_deletion-Succeeds r (delete r) (delete_first delete prefix n rs) h in
      subst (All (Succeeds delete)) (sym same) (ok_here, delete_first-Succeeds n rs later)

cleanup-Succeeds :
    (delete : ScanReport → Deletion) (items : List ScanReport)
    → (cleanup_scan_reports delete (ok items)).ending ≡ all_deleted
    → All (Succeeds delete) items
unfolding cleanup_scan_reports
cleanup-Succeeds delete items h =
    subst (All (Succeeds delete)) (cleanup_scan_reports_lem delete items h)
      (delete_first-Succeeds delete (codes "deleting ScanReport ") (length items) items h)

-- The write is to the scan itself.
abbrev pub IsScanUpdate : Write → Type 0
IsScanUpdate (update_scan s) = Unit
IsScanUpdate (update_status s) = ⊥
IsScanUpdate (create_report r) = ⊥
IsScanUpdate (complete_report n) = ⊥
IsScanUpdate (delete_report r) = ⊥

no_update_of_deletions : (rs : List ScanReport) → ¬ Any IsScanUpdate (deletion_writes rs)
no_update_of_deletions [] m = m
no_update_of_deletions (r ∷ rs) (inl u) = u
no_update_of_deletions (r ∷ rs) (inr m) = no_update_of_deletions rs m

Any-append : {A : Type 0} (P : A → Type 0) (xs ys : List A) → Any P (xs ++ ys) → Any P xs ⊎ Any P ys
Any-append P [] ys m = inr m
Any-append P (x ∷ xs) ys (inl p) = inl (inl p)
Any-append P (x ∷ xs) ys (inr m) = elim (Any-append P xs ys m) [
  | inl k ↦ inl (inr k)
  | inr k ↦ inr k
]

attempt-done :
    (w : Write) (prefix : Text) (o : Option Text) → (attempt w prefix o (ends done)).writes ≡ w ∷ []
attempt-done w prefix none = refl
attempt-done w prefix (some e) = refl

module _ (parse_standard : Text → Option (ℕ → ℕ)) (registry : Registry) (pod_api : ScopeApi)
    (api : ScanApi) (clock : ScanClock) where
  -- The scan's reports are listed and deleted, and then its finalizer is removed.
  pub record IsCleaned (scan : ClusterScan) (writes : List Write) : Type 0 where
    pub items : List ScanReport
    pub listed : api.list_reports ≡ ok items
    pub succeeded : All (Succeeds api.delete_answer) items
    pub order :
        writes ≡ deletion_writes items ++ update_scan (record scan { has_finalizer = false }) ∷ []

  finalize-writes :
      (scan : ClusterScan) (rs : List ScanReport) (o : Ending)
      → Any IsScanUpdate
          (deletion_writes rs ++ (finalize parse_standard registry pod_api api clock scan o).writes)
      → (o ≡ all_deleted)
        × ((finalize parse_standard registry pod_api api clock scan o).writes
            ≡ update_scan (record scan { has_finalizer = false }) ∷ [])
  finalize-writes scan rs all_deleted m =
      (refl, attempt-done _ (codes "removing finalizer") api.update_answer)
  finalize-writes scan rs (stopped e) m =
      absurd (elim (Any-append IsScanUpdate (deletion_writes rs) [] m) [
        | inl k ↦ no_update_of_deletions rs k
        | inr k ↦ k
      ])
  finalize-writes scan rs out_of_range m =
      absurd (elim (Any-append IsScanUpdate (deletion_writes rs) [] m) [
        | inl k ↦ no_update_of_deletions rs k
        | inr k ↦ k
      ])

  by_listing :
      (scan : ClusterScan) (l : Attempt (List ScanReport))
      → api.list_reports ≡ l
      → let d = cleanup_scan_reports api.delete_answer l in
        let writes =
          deletion_writes d.requested
          ++ (finalize parse_standard registry pod_api api clock scan d.ending).writes in
        Any IsScanUpdate writes → IsCleaned scan writes
  unfolding cleanup_scan_reports
  by_listing scan (err e) h m = absurd m
  by_listing scan (ok items) h m =
      let d = cleanup_scan_reports api.delete_answer (ok items) in
      let (all, last) = finalize-writes scan d.requested d.ending m in
      record {
        items = items;
        listed = h;
        succeeded = cleanup-Succeeds api.delete_answer items all;
        order =
            ap (λ x. deletion_writes d.requested ++ x) last
            ∙ ap
                (λ x. deletion_writes x ++ update_scan (record scan { has_finalizer = false }) ∷ [])
                (cleanup_scan_reports_lem api.delete_answer items all);
      }

  -- If a run of a scan that is being deleted updates the scan, then it has deleted every report that the
  -- API lists for it, no deletion having failed, and then removed the finalizer, and no more.
  pub finalizer_outlives_reports :
      (scan : ClusterScan)
      → scan.is_deleted ≡ true
      → let run = reconcile parse_standard registry pod_api api clock (fetched scan) in
        Any IsScanUpdate run.writes → IsCleaned scan run.writes
  unfolding reconcile delete_scan
  finalizer_outlives_reports scan gone = simp gone (elim (Bool-cases scan.has_finalizer) [
    | inl e ↦ simp e (by_listing scan api.list_reports refl)
    | inr e ↦ simp e (λ m. absurd m)
  ])
