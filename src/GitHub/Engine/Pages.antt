-- ===== src/GitHub/Engine/Pages.antt =====
-- How many pull requests ListOpenPRs returns.
use aotanami.Remediation.Apply.{PullRequestResult}
use aotanami.Prelude.{
  inr, inl, refl, ltb, length-filter, length-append, ap, Bool-cases, zero, filter, suc, ◌≡◌, arith,
  none, ◌*◌, ◌++◌, ◌+◌, ◌≤◌, length, some, Text, Option, ℕ,
}
use aotanami.GitHub.Engine.{
  is_zelyo_operator, ◌∷◌, [], go_page, result_of, map, list_pages, PullRequestResult, list_open_prs,
  List, Pull, Api,
}

-- At most `n` results, if there is no error.
abbrev pub AtMost : ℕ → Option (List PullRequestResult) → Type 0
AtMost n none = Unit
AtMost n (some results) = length results ≤ n

-- A page of at most 100 entries, as the API documents.
abbrev pub PageSized : Option (List Pull) → Type 0
PageSized none = Unit
PageSized (some prs) = length prs ≤ 100

AtMost-le : (m n : ℕ) (o : Option (List PullRequestResult)) → m ≤ n → AtMost m o → AtMost n o
AtMost-le m n none le h = tt
AtMost-le m n (some results) le h = omega (arith, le, h)

length-results : (prs : List Pull) → length (map result_of prs) ≡ length prs
length-results [] = refl
length-results (pr ∷ prs) = ap suc (length-results prs)

-- A page adds at most its entries.
length-more :
    (results : List PullRequestResult) (prs : List Pull)
    → length prs ≤ 100
    → length (results ++ map result_of (filter is_zelyo_operator prs)) ≤ length results + 100
length-more results prs le = omega (
  arith,
  length-append results (map result_of (filter is_zelyo_operator prs)),
  length-results (filter is_zelyo_operator prs),
  length-filter is_zelyo_operator prs,
  le,
)

module _ {W : Type 0} (path_escape : Text → Text) (api : Api W) (owner repo : Text)
    (sized : (page : ℕ) (w : W) → PageSized (api.pulls_page owner repo page w).0) where
  go_page-AtMost :
      (next : List PullRequestResult → W → Option (List PullRequestResult) × W) (left : ℕ)
      (results : List PullRequestResult) (r : Option (List Pull) × W)
      → ((more : List PullRequestResult) (w : W)
          → AtMost (length more + left * 100) (next more w).0)
      → PageSized r.0
      → AtMost (length results + (left * 100 + 100)) (go_page path_escape api next results r).0
  go_page-AtMost next left results (none, w) rest le = tt
  go_page-AtMost next left results (some prs, w) rest le =
      let more = results ++ map result_of (filter is_zelyo_operator prs) in
      elim (Bool-cases (ltb (length prs) 100)) [
        | inl short ↦ rw short (omega (arith, length-more results prs le))
        | inr full ↦ rw full (
            AtMost-le (length more + left * 100) (length results + (left * 100 + 100))
              (next more w).0 (omega (arith, length-more results prs le)) (rest more w))
      ]

  list_pages-AtMost :
      (left page : ℕ) (results : List PullRequestResult) (w : W)
      → AtMost
          (length results + left * 100)
          (list_pages path_escape api owner repo left page results w).0
  unfolding list_pages
  list_pages-AtMost zero page results w = omega arith
  list_pages-AtMost (suc left) page results w =
      AtMost-le (length results + (left * 100 + 100)) (length results + suc left * 100)
        (list_pages path_escape api owner repo (suc left) page results w).0 (omega arith)
        (go_page-AtMost (list_pages path_escape api owner repo left (suc page)) left results
          (api.pulls_page owner repo page w) (list_pages-AtMost left (suc page)) (sized page w))

  -- When each page has at most 100 entries, ListOpenPRs returns at most 1000 pull requests, so their
  -- number fits into an int32.
  pub list_open_prs-AtMost : (w : W) → AtMost 1000 (list_open_prs path_escape api owner repo w).0
  unfolding list_open_prs
  list_open_prs-AtMost w =
      AtMost-le (0 + 10 * 100) 1000 (list_open_prs path_escape api owner repo w).0 (omega arith)
        (list_pages-AtMost 10 1 [] w)
