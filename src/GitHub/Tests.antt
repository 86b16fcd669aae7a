-- ===== src/GitHub/Tests.antt =====
-- CreatePullRequest against a repository whose branch exists and has an open pull request.
use aotanami.GitHub.Engine.Guards.{open_pull_is_left_alone, lookup, found}
use aotanami.GitHub.Engine.{
  create_pull_request, find_open_pr_by_head_branch, Pull, Api, ref_rejected,
}
use aotanami.Remediation.Apply.{PullRequest}
use aotanami.Prelude.{refl, ◌≡◌, suc, true, none, text_eq, [], ◌∷◌, some, codes, Text, ℕ}

-- The world counts the commits and the pull requests that are opened.
abbrev open_pull_request : Pull
open_pull_request = record {
  number = 7;
  html_url = codes "u";
  head_ref = codes "zelyo-operator/fix/x";
  head_label = codes "acme:zelyo-operator/fix/x";
  created_at = 3;
  labels = [];
}

abbrev api : Api ℕ
api = record {
  get_ref = λ owner repo ref w. (some (codes "abc"), w);
  create_ref = λ owner repo ref sha w. (ref_rejected 422, w);
  pulls_of_head = λ owner repo head w. (some (open_pull_request ∷ []), w);
  pulls_page = λ owner repo page w. (some (open_pull_request ∷ []), w);
  file_sha = λ owner repo path branch w. (none, w);
  put_file = λ owner repo escaped path content branch sha w. (true, suc w);
  remove_file = λ owner repo escaped path branch sha w. (true, suc w);
  open_pull = λ pr w. (none, suc w);
  add_labels = λ owner repo number labels w. (true, w);
}

abbrev request : PullRequest
request = record {
  repo_owner = codes "acme";
  repo_name = codes "shop";
  title = codes "t";
  base_branch = codes "main";
  head_branch = codes "zelyo-operator/fix/x";
  labels = [];
  files = [];
}

abbrev escape : Text → Text
escape s = s

open_pull_is_left_alone_example :
    create_pull_request escape api request 0
    ≡ (found escape api (lookup escape api request 0).0, (lookup escape api request 0).1)
unfolding find_open_pr_by_head_branch text_eq
open_pull_is_left_alone_example =
    open_pull_is_left_alone escape api request 0 0
      (record { sha = codes "abc"; between = 0; based = refl; rejected = refl }) refl
