-- ===== src/GitHub/Engine.antt =====
-- internal/github/engine.go: CreatePullRequest and ListOpenPRs. `W` is the state of GitHub; Api has
-- one operation for each kind of request that doRequest makes, with the answer decoded.
pub mod Guards
pub mod Pages
use aotanami.GitHub.Paths.{safe_repo_path}
use aotanami.Remediation.Model.{FileOp, delete}
use aotanami.Remediation.Apply.{FileChange, GitOps, PullRequest, PullRequestResult}
use aotanami.Prelude.{
  ltb, filter, text_eq, map, ◌==◌, any, ◌||◌, suc, true, not, length, ◌∷◌, false, none, codes,
  if◌then◌else◌, some, ◌++◌, [], List, has_prefix, zero, Text, Option, Bool, ℕ,
}

-- githubPullResponse
pub record Pull : Type 0 where
  pub number : ℕ
  pub html_url : Text
  pub head_ref : Text
  pub head_label : Text
  pub created_at : ℕ
  pub labels : List Text

-- The answer to the creation of a ref: an APIError has a status, another error has none.
pub data RefAnswer : Type 0 where
  ref_created ref_failed : RefAnswer
  ref_rejected : ℕ → RefAnswer

-- The requests, each to an owner's repository. `none` and `false` are errors.
pub record Api (W : Type 0) : Type 0 where
  pub get_ref : Text → Text → Text → W → Option Text × W
  pub create_ref : Text → Text → Text → Text → W → RefAnswer × W
  pub pulls_of_head : Text → Text → Text → W → Option (List Pull) × W
  pub pulls_page : Text → Text → ℕ → W → Option (List Pull) × W
  -- The SHA of the file at an escaped path, on a branch.
  pub file_sha : Text → Text → Text → Text → W → Option Text × W
  -- An escaped path, the path, the content, the branch and the SHA, empty for a new file.
  pub put_file : Text → Text → Text → Text → Text → Text → Text → W → Bool × W
  pub remove_file : Text → Text → Text → Text → Text → Text → W → Bool × W
  pub open_pull : PullRequest → W → Option (ℕ × Text × ℕ) × W
  pub add_labels : Text → Text → ℕ → List Text → W → Bool × W

abbrev unprocessable_entity : ℕ
unprocessable_entity = 422

abbrev or_empty : Option Text → Text
or_empty none = []
or_empty (some sha) = sha

abbrev list_open_prs_page_size : ℕ
list_open_prs_page_size = 100

abbrev list_open_prs_max_pages : ℕ
list_open_prs_max_pages = 10

abbrev result_of : Pull → PullRequestResult
result_of pr = record {
  number = pr.number;
  url = pr.html_url;
  branch = pr.head_ref;
  created_at = pr.created_at;
}

-- The loop of findOpenPRByHeadBranch.
pub first_labelled : Text → List Pull → Option PullRequestResult
first_labelled label [] = none
first_labelled label (pr ∷ prs) =
    let rest = first_labelled label prs in
    if text_eq pr.head_label label then some (result_of pr) else rest

-- The test of ListOpenPRs.
unfoldable pub is_zelyo_operator : Pull → Bool
is_zelyo_operator pr =
    has_prefix pr.head_ref (codes "zelyo-operator/")
    || any (λ l. text_eq l (codes "zelyo-operator")) pr.labels

module _ {W : Type 0} (path_escape : Text → Text) (api : Api W) where
  -- createOrUpdateFile behind the check of the path.
  abbrev put_with : PullRequest → FileChange → Text → Option Text × W → Bool × W
  put_with pr file escaped (sha, w) =
      api.put_file pr.repo_owner pr.repo_name escaped file.path file.content pr.head_branch
        (or_empty sha) w

  abbrev put_at : PullRequest → FileChange → W → Option Text → Bool × W
  put_at pr file w none = (false, w)
  put_at pr file w (some escaped) =
      put_with pr file escaped (api.file_sha pr.repo_owner pr.repo_name escaped pr.head_branch w)

  -- createOrUpdateFile
  pub create_or_update_file : PullRequest → FileChange → W → Bool × W
  create_or_update_file pr file w = put_at pr file w (safe_repo_path path_escape file.path)

  -- deleteFile behind the check of the path.
  abbrev remove_with : PullRequest → FileChange → Text → Option Text × W → Bool × W
  remove_with pr file escaped (none, w) = (false, w)
  remove_with pr file escaped (some sha, w) =
      api.remove_file pr.repo_owner pr.repo_name escaped file.path pr.head_branch sha w

  abbrev remove_at : PullRequest → FileChange → W → Option Text → Bool × W
  remove_at pr file w none = (false, w)
  remove_at pr file w (some escaped) =
      remove_with pr file escaped (api.file_sha pr.repo_owner pr.repo_name escaped pr.head_branch w)

  -- deleteFile
  pub delete_file : PullRequest → FileChange → W → Bool × W
  delete_file pr file w = remove_at pr file w (safe_repo_path path_escape file.path)

  abbrev commit_by : FileOp → PullRequest → FileChange → W → Bool × W
  commit_by delete = delete_file
  commit_by _ = create_or_update_file

  abbrev go_on : (W → Bool × W) → Bool × W → Bool × W
  go_on next (false, w) = (false, w)
  go_on next (true, w) = next w

  -- Step 3 of CreatePullRequest: it ends at the first error.
  pub commit_files : PullRequest → List FileChange → W → Bool × W
  unfolding create_or_update_file delete_file
  commit_files pr [] w = (true, w)
  commit_files pr (file ∷ files) w =
      go_on (commit_files pr files) (commit_by file.operation pr file w)

  -- Step 5: the error of the labels is not fatal.
  abbrev label : PullRequest → PullRequestResult → W → Option PullRequestResult × W
  label pr r w =
      if length pr.labels == 0
      then (some r, w)
      else (some r, (api.add_labels pr.repo_owner pr.repo_name r.number pr.labels w).1)

  -- Step 4.
  abbrev opened : PullRequest → Option (ℕ × Text × ℕ) × W → Option PullRequestResult × W
  opened pr (none, w) = (none, w)
  opened pr (some (number, url, at), w) =
      label pr (record { number = number; url = url; branch = pr.head_branch; created_at = at }) w

  abbrev after_commits : PullRequest → Bool × W → Option PullRequestResult × W
  after_commits pr (false, w) = (none, w)
  after_commits pr (true, w) = opened pr (api.open_pull pr w)

  -- Steps 3 to 5.
  pub commit_and_open : PullRequest → W → Option PullRequestResult × W
  unfolding commit_files
  commit_and_open pr w = after_commits pr (commit_files pr pr.files w)

  abbrev labelled : Text → Option (List Pull) × W → Option (Option PullRequestResult) × W
  labelled want (none, w) = (none, w)
  labelled want (some prs, w) = (some (first_labelled want prs), w)

  -- findOpenPRByHeadBranch; `none` is an error.
  unfoldable pub find_open_pr_by_head_branch :
      Text → Text → Text → W → Option (Option PullRequestResult) × W
  unfolding first_labelled
  find_open_pr_by_head_branch owner repo branch w =
      let want = owner ++ codes ":" ++ branch in labelled want (api.pulls_of_head owner repo want w)

  -- Step 2 at a branch that exists, by what the lookup found.
  abbrev at_existing :
      PullRequest → Option (Option PullRequestResult) × W → Option PullRequestResult × W
  at_existing pr (none, w) = (none, w)
  at_existing pr (some (some existing), w) = (some existing, w)
  at_existing pr (some none, w) = commit_and_open pr w

  -- Step 2 by the answer to the creation of the branch.
  abbrev at_branch : PullRequest → RefAnswer × W → Option PullRequestResult × W
  at_branch pr (ref_created, w) = commit_and_open pr w
  at_branch pr (ref_failed, w) = (none, w)
  at_branch pr (ref_rejected status, w) =
      if not (status == unprocessable_entity)
      then (none, w)
      else at_existing pr (find_open_pr_by_head_branch pr.repo_owner pr.repo_name pr.head_branch w)

  abbrev at_base : PullRequest → Option Text × W → Option PullRequestResult × W
  at_base pr (none, w) = (none, w)
  at_base pr (some sha, w) =
      at_branch pr
        (api.create_ref pr.repo_owner pr.repo_name (codes "refs/heads/" ++ pr.head_branch) sha w)

  -- CreatePullRequest; `none` is an error.
  pub create_pull_request : PullRequest → W → Option PullRequestResult × W
  unfolding commit_and_open find_open_pr_by_head_branch
  create_pull_request pr w =
      at_base pr (api.get_ref pr.repo_owner pr.repo_name (codes "heads/" ++ pr.base_branch) w)

  -- The body of the loop of ListOpenPRs, given the rest of the loop.
  abbrev go_page :
      (List PullRequestResult → W → Option (List PullRequestResult) × W)
      → List PullRequestResult
      → Option (List Pull) × W
      → Option (List PullRequestResult) × W
  go_page next results (none, w) = (none, w)
  go_page next results (some prs, w) =
      let more = results ++ map result_of (filter is_zelyo_operator prs) in
      if ltb (length prs) list_open_prs_page_size then (some more, w) else next more w

  -- The loop of ListOpenPRs over `left` further pages, from `page` on.
  pub list_pages :
      Text → Text → ℕ → ℕ → List PullRequestResult → W → Option (List PullRequestResult) × W
  list_pages owner repo zero page results w = (some results, w)
  list_pages owner repo (suc left) page results w =
      go_page (list_pages owner repo left (suc page)) results (api.pulls_page owner repo page w)

  -- ListOpenPRs; `none` is an error.
  pub list_open_prs : Text → Text → W → Option (List PullRequestResult) × W
  unfolding list_pages
  list_open_prs owner repo w = list_pages owner repo list_open_prs_max_pages 1 [] w

  -- The engine.
  pub git_hub_engine : GitOps W
  git_hub_engine = record {
    create_pull_request = create_pull_request;
    list_open_prs = list_open_prs;
  }
