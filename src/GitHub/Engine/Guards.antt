-- ===== src/GitHub/Engine/Guards.antt =====
-- When CreatePullRequest leaves an open pull request alone.
use aotanami.Remediation.Apply.{PullRequestResult, PullRequest}
use aotanami.GitHub.Engine.{
  at_existing, ref_rejected, find_open_pr_by_head_branch, PullRequestResult, PullRequest,
  create_pull_request, Api,
}
use aotanami.Prelude.{refl, arith, false, none, Bool, some, ◌++◌, true, ◌≡◌, codes, Option, Text}

module _ {W : Type 0} (path_escape : Text → Text) (api : Api W) where
  -- GitHub rejects the branch because it exists: the state before the lookup.
  pub record Existing (pr : PullRequest) (w w' : W) : Type 0 where
    pub sha : Text
    pub between : W
    pub based :
        api.get_ref pr.repo_owner pr.repo_name (codes "heads/" ++ pr.base_branch) w
        ≡ (some sha, between)
    pub rejected :
        api.create_ref pr.repo_owner pr.repo_name
          (codes "refs/heads/" ++ pr.head_branch)
          sha
          between
        ≡ (ref_rejected 422, w')

  abbrev pub lookup : PullRequest → W → Option (Option PullRequestResult) × W
  lookup pr w =
      find_open_pr_by_head_branch path_escape api pr.repo_owner pr.repo_name pr.head_branch w

  abbrev pub guarded : Option (Option PullRequestResult) → Bool
  guarded none = true
  guarded (some none) = false
  guarded (some (some r)) = true

  abbrev pub found : Option (Option PullRequestResult) → Option PullRequestResult
  found none = none
  found (some o) = o

  -- When the head branch exists, and an open pull request has it or the lookup fails, the request ends
  -- with the lookup: it commits nothing, opens nothing, and returns the open pull request, or the error.
  pub open_pull_is_left_alone :
      (pr : PullRequest) (w w' : W)
      → Existing pr w w'
      → guarded (lookup pr w').0 ≡ true
      → create_pull_request path_escape api pr w ≡ (found (lookup pr w').0, (lookup pr w').1)
  unfolding create_pull_request
  open_pull_is_left_alone pr w w' h g = rw (h.based, h.rejected) (ends (lookup pr w') g)
    where
      ends :
          (r : Option (Option PullRequestResult) × W)
          → guarded r.0 ≡ true
          → at_existing path_escape api pr r ≡ (found r.0, r.1)
      ends (none, v) g = refl
      ends (some none, v) g = absurd (ground (arith, g))
      ends (some (some r), v) g = refl
