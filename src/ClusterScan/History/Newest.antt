-- ===== src/ClusterScan/History/Newest.antt =====
-- Which reports the controller deletes.
use aotanami.ClusterScan.History.{
  ok, cleanup_scan_reports, enforce_history_limit, int32, effective_limit, int32_le, already_gone,
  deleted, all_deleted, out_of_range, delete_failed, after_deletion, delete_first, Deletions,
  Deletion,
}
use aotanami.Prelude.{
  append-nil, ◌⊎◌, Elem-append_iff, ◌∙◌, ◌↔◌, Elem, sym, Elem-sort_by_iff, length-sort_by, inr,
  sort_by-IsSortedBy, inl, IsSortedBy, codes, Bool-cases, min, subst, All, IsSortedBy-append,
  sort_by, ◌-◌, leb, [], ◌<◌, ap, refl, zero, ◌≢◌, arith, ◌+◌, length, ◌++◌, suc, ◌≡◌, ◌∷◌, ◌≤◌,
  List, ℕ, Text,
}
use aotanami.ClusterScan.Model.{int32, ScanReport}

abbrev pub age : ScanReport → ℕ
age r = r.creation_timestamp

-- What became of a list of reports, of which at most `n` were to be deleted: the first ones were
-- requested, and `kept` follows them; if nothing failed, it is all but the first `n`.
pub record IsCut (rs : List ScanReport) (n : ℕ) (d : Deletions) : Type 0 where
  pub kept : List ScanReport
  pub parts : rs ≡ d.requested ++ kept
  pub enough : length rs ≤ n + length kept
  pub in_range : d.ending ≢ out_of_range
  pub complete : d.ending ≡ all_deleted → n + length kept ≡ length rs

module _ (delete : ScanReport → Deletion) (prefix : Text) where
  after_deletion-IsCut :
      (r : ScanReport) (rs : List ScanReport) (n : ℕ) (o : Deletion) (d : Deletions)
      → IsCut rs n d
      → IsCut (r ∷ rs) (suc n) (after_deletion delete prefix r o d)
  after_deletion-IsCut r rs n deleted d c =
      let enough = c.enough in
      record {
        kept = c.kept;
        parts = ap (λ x. r ∷ x) c.parts;
        enough = omega (arith, enough);
        in_range = c.in_range;
        complete = λ e. omega (arith, c.complete e);
      }
  after_deletion-IsCut r rs n already_gone d c =
      let enough = c.enough in
      record {
        kept = c.kept;
        parts = ap (λ x. r ∷ x) c.parts;
        enough = omega (arith, enough);
        in_range = c.in_range;
        complete = λ e. omega (arith, c.complete e);
      }
  after_deletion-IsCut r rs n (delete_failed e) d c = record {
    kept = rs;
    parts = refl;
    enough = omega arith;
    in_range = λ x. absurd (ground (arith, x));
    complete = λ x. absurd (ground (arith, x));
  }

  pub delete_first-IsCut :
      (n : ℕ) (rs : List ScanReport) → n ≤ length rs → IsCut rs n (delete_first delete prefix n rs)
  unfolding delete_first
  delete_first-IsCut zero rs h = record {
    kept = rs;
    parts = refl;
    enough = omega arith;
    in_range = λ e. absurd (ground (arith, e));
    complete = λ e. omega arith;
  }
  delete_first-IsCut (suc n) [] h = absurd (omega (arith, h))
  delete_first-IsCut (suc n) (r ∷ rs) h =
      after_deletion-IsCut r rs n (delete r) (delete_first delete prefix n rs)
        (delete_first-IsCut n rs (omega (arith, h)))

-- The limit is positive, and below 2 ^ 31.
pub effective_limit-bounds :
    (limit : ℕ)
    → limit < 4294967296
    → (0 < effective_limit limit) × (effective_limit limit < 2147483648)
effective_limit-bounds limit h = ground arith

int32_le_iff :
    (n limit : ℕ) → n < 2147483648 → limit < 2147483648 → int32_le (int32 n) limit ≡ leb n limit
int32_le_iff n limit h k = ground arith

int32_difference :
    (n limit : ℕ) → n < 2147483648 → limit < n → int32 (int32 n + (4294967296 - limit)) ≡ n - limit
int32_difference n limit h k = omega arith

-- The reports in two parts, those whose deletion was requested and those that are kept, as the limit
-- wants them.
pub record IsPruned (limit : ℕ) (items : List ScanReport) (d : Deletions) : Type 0 where
  pub kept : List ScanReport
  pub parts : (r : ScanReport) → Elem r items ↔ (Elem r d.requested ⊎ Elem r kept)
  pub older : All (λ r. All (λ k. age r ≤ age k) kept) d.requested
  pub enough : min (effective_limit limit) (length items) ≤ length kept
  pub in_range : d.ending ≢ out_of_range
  pub complete : d.ending ≡ all_deleted → length kept ≡ min (effective_limit limit) (length items)

cut-IsPruned :
    (limit n : ℕ) (items : List ScanReport) (d : Deletions)
    → n ≡ length items - effective_limit limit
    → IsCut (sort_by age items) n d
    → IsPruned limit items d
cut-IsPruned limit n items d e c =
    let enough = c.enough in
    record {
      kept = c.kept;
      parts = λ r.
          let (to, from) = Elem-sort_by_iff age r items in
          let (split, glue) = Elem-append_iff r d.requested c.kept in
          (
            (λ m. split (subst (Elem r) c.parts (from m))),
            λ m. to (subst (Elem r) (sym c.parts) (glue m)),
          );
      older =
          IsSortedBy-append age d.requested c.kept
            (subst (IsSortedBy age) c.parts (sort_by-IsSortedBy age items));
      enough = omega (arith, e, enough, length-sort_by age items);
      in_range = c.in_range;
      complete = λ h. omega (arith, e, c.complete h, length-sort_by age items, enough);
    }

-- Of fewer than 2 ^ 31 reports, the controller asks to delete only such as are no newer than any that
-- it keeps, keeps no fewer than the limit allows, or all, and reads the list within its range; if no
-- deletion fails, it keeps exactly as many. A limit that is not positive is 10.
pub enforce_history_limit_lem :
    (delete : ScanReport → Deletion) (limit : ℕ) (items : List ScanReport)
    → limit < 4294967296
    → length items < 2147483648
    → IsPruned limit items (enforce_history_limit delete limit (ok items))
unfolding enforce_history_limit
enforce_history_limit_lem delete limit items h k =
    let (positive, small) = effective_limit-bounds limit h in
    let same = int32_le_iff (length items) (effective_limit limit) k small in
    let sorted = sort_by age items in
    elim (Bool-cases (leb (length items) (effective_limit limit))) [
      | inl e ↦
          let none_over : 0 ≡ length items - effective_limit limit = ground (arith, e) in
          let c : IsCut sorted 0 (record { requested = []; ending = all_deleted }) =
            unfold delete_first in delete_first-IsCut delete [] 0 sorted (omega arith) in
          rw same (rw e (cut-IsPruned limit 0 items _ none_over c))
      | inr e ↦
          let count : int32 (int32 (length items) + (4294967296 - effective_limit limit))
              ≡ length items - effective_limit limit =
            int32_difference (length items) (effective_limit limit) k (ground (arith, e)) in
          rw same (
            rw e (
              cut-IsPruned limit _ items _ count (
                delete_first-IsCut delete (codes "deleting old ScanReport ") _ sorted
                  (omega (arith, count, length-sort_by age items)))))
    ]

length-zero : {A : Type 0} (xs : List A) → length xs ≡ 0 → xs ≡ []
length-zero [] h = refl
length-zero (x ∷ xs) h = absurd (omega (arith, h))

-- If no deletion fails, every report was deleted.
pub cleanup_scan_reports_lem :
    (delete : ScanReport → Deletion) (items : List ScanReport)
    → (cleanup_scan_reports delete (ok items)).ending ≡ all_deleted
    → (cleanup_scan_reports delete (ok items)).requested ≡ items
unfolding cleanup_scan_reports
cleanup_scan_reports_lem delete items h =
    let c =
      delete_first-IsCut delete (codes "deleting ScanReport ") (length items) items (omega arith) in
    let none_left = length-zero c.kept (omega (arith, c.complete h)) in
    sym (
      c.parts
      ∙ ap (λ x. (cleanup_scan_reports delete (ok items)).requested ++ x) none_left
      ∙ append-nil _)
