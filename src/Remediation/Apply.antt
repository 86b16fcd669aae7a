-- ===== src/Remediation/Apply.antt =====
-- internal/remediation/engine.go: the Engine with its registry, GeneratePlan and ApplyPlan. `W` is
-- the state of everything outside; the LLM client and the GitOps engines act on it.
pub mod Requests
use aotanami.Remediation.Fixes.{plan_of_content, LlmResponse}
use aotanami.Remediation.Branch.{pr_title, branch_name}
use aotanami.Remediation.Model.{Fix, FileOp, Finding, Plan}
use aotanami.Prelude.{
  map, text_eq, ◌==◌, [], ◌∷◌, none, ◌++◌, some, ltb, codes, if◌then◌else◌, Option, List, Text, ℕ,
}

-- gitops.FileChange
pub record FileChange : Type 0 where
  pub path : Text
  pub content : Text
  pub operation : FileOp

-- gitops.PullRequest, less the body, which is a function of the plan for people to read, and
-- AutoMerge, which createPR leaves false.
pub record PullRequest : Type 0 where
  pub repo_owner : Text
  pub repo_name : Text
  pub title : Text
  pub base_branch : Text
  pub head_branch : Text
  pub labels : List Text
  pub files : List FileChange

-- gitops.PullRequestResult
pub record PullRequestResult : Type 0 where
  pub number : ℕ
  pub url : Text
  pub branch : Text
  pub created_at : ℕ

-- The methods of gitops.Engine that are called; `none` is an error.
pub record GitOps (W : Type 0) : Type 0 where
  pub create_pull_request : PullRequest → W → Option PullRequestResult × W
  pub list_open_prs : Text → Text → W → Option (List PullRequestResult) × W

-- Strategy is a string; `other` is any that is not a constant of the code.
pub data Strategy : Type 0 where
  gitops_pr dry_run report : Strategy
  other : Text → Strategy

-- The LLM client is asked with the messages that GeneratePlan builds of the finding and the paths;
-- it answers with the content of the response, or an error.
pub record Engine (W : Type 0) : Type 0 where
  pub llm_client : Option (Finding → List Text → W → Option Text × W)
  pub gitops_engine : Option (GitOps W)
  pub strategy : Strategy
  pub max_blast_radius : ℕ
  pub gitops_registry : List (Text × GitOps W)

-- EngineConfig
pub record EngineConfig : Type 0 where
  pub strategy : Strategy
  pub max_blast_radius : ℕ

abbrev repo_key : Text → Text → Text
repo_key owner repo = owner ++ codes "/" ++ repo

abbrev pub labels_of_prs : List Text
labels_of_prs = codes "zelyo-operator" ∷ codes "security" ∷ codes "automated" ∷ []

-- The pull request of a plan.
pub request_of : Plan → Text → Text → PullRequest
unfolding branch_name pr_title
request_of plan owner repo = record {
  repo_owner = owner;
  repo_name = repo;
  title =
      pr_title plan.finding.resource_name plan.finding.resource_namespace plan.finding.rule_type;
  base_branch = codes "main";
  head_branch =
      branch_name plan.finding.resource_name plan.finding.resource_namespace plan.finding.title;
  labels = labels_of_prs;
  files =
      map
        (λ (fix : Fix). record {
          path = fix.file_path;
          content = fix.patch;
          operation = fix.operation;
        })
        plan.fixes;
}

-- What ApplyPlan returns: an error, or a pull request if one was created.
pub data Applied : Type 0 where
  failed : Applied
  applied : Option PullRequestResult → Applied

module _ {W : Type 0} where
  -- What the registry holds for a key, or else the default.
  pub lookup_engine : Text → List (Text × GitOps W) → Option (GitOps W) → Option (GitOps W)
  lookup_engine key [] fallback = fallback
  lookup_engine key (e ∷ es) fallback =
      let rest = lookup_engine key es fallback in if text_eq e.0 key then some e.1 else rest

  abbrev applied_of : Option PullRequestResult × W → Applied × W
  applied_of (none, w) = (failed, w)
  applied_of (some r, w) = (applied (some r), w)

  abbrev create_with : Option (GitOps W) → PullRequest → W → Applied × W
  create_with none pr w = (failed, w)
  create_with (some g) pr w = applied_of (g.create_pull_request pr w)

  -- NewEngine
  pub new_engine :
      Option (Finding → List Text → W → Option Text × W)
      → Option (GitOps W)
      → EngineConfig
      → Engine W
  new_engine client ge cfg = record {
    llm_client = client;
    gitops_engine = ge;
    strategy = cfg.strategy;
    max_blast_radius = if cfg.max_blast_radius == 0 then 10 else cfg.max_blast_radius;
    gitops_registry = [];
  }

  -- RegisterGitOpsEngine. The newest entry of a key is found first.
  pub register_gitops_engine : Text → GitOps W → Engine W → Engine W
  register_gitops_engine key g e = record e { gitops_registry = (key, g) ∷ e.gitops_registry }

  -- getGitOpsEngine
  unfoldable pub get_gitops_engine : Engine W → Text → Text → Option (GitOps W)
  unfolding lookup_engine
  get_gitops_engine e owner repo =
      lookup_engine (repo_key owner repo) e.gitops_registry e.gitops_engine

  -- SetLLMClient
  pub set_llm_client : Option (Finding → List Text → W → Option Text × W) → Engine W → Engine W
  set_llm_client client e = record e { llm_client = client }

  -- SetGitOpsEngine
  pub set_gitops_engine : Option (GitOps W) → Engine W → Engine W
  set_gitops_engine ge e = record e { gitops_engine = ge }

  -- SetConfig
  pub set_config : EngineConfig → Engine W → Engine W
  set_config cfg e = record e {
    strategy = cfg.strategy;
    max_blast_radius =
        if ltb 0 cfg.max_blast_radius then cfg.max_blast_radius else e.max_blast_radius;
  }

  -- createPR, up to the events that it emits.
  pub create_pr : Engine W → Plan → Text → Text → W → Applied × W
  unfolding get_gitops_engine request_of
  create_pr e plan owner repo w =
      create_with (get_gitops_engine e owner repo) (request_of plan owner repo) w

  apply_by : Strategy → Engine W → Plan → Text → Text → W → Applied × W
  unfolding create_pr
  apply_by dry_run e plan owner repo w = (applied none, w)
  apply_by report e plan owner repo w = (applied none, w)
  apply_by gitops_pr e plan owner repo w = create_pr e plan owner repo w
  apply_by (other s) e plan owner repo w = (failed, w)

  -- ApplyPlan
  unfoldable pub apply_plan : Engine W → Plan → Text → Text → W → Applied × W
  unfolding apply_by
  apply_plan e = apply_by e.strategy e

  module _ (unmarshal : Text → Option LlmResponse) where
    -- GeneratePlan after the answer.
    abbrev plan_of_answer : ℕ → Finding → List Text → Option Text × W → Option Plan × W
    plan_of_answer now finding allowed (none, w) = (none, w)
    plan_of_answer now finding allowed (some content, w) =
        (plan_of_content unmarshal now finding allowed content, w)

    abbrev ask :
        Option (Finding → List Text → W → Option Text × W)
        → ℕ
        → Finding
        → List Text
        → W
        → Option Plan × W
    ask none now finding allowed w = (none, w)
    ask (some client) now finding allowed w =
        plan_of_answer now finding allowed (client finding allowed w)

    -- GeneratePlan; `none` is an error.
    unfoldable pub generate_plan : Engine W → ℕ → Finding → List Text → W → Option Plan × W
    unfolding plan_of_content
    generate_plan e now finding allowed w = ask e.llm_client now finding allowed w
