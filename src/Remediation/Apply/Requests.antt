-- ===== src/Remediation/Apply/Requests.antt =====
-- What the remediation engine asks of a GitOps engine.
use aotanami.Remediation.Branch.{branch_name-length}
use aotanami.Remediation.Fixes.Vetted.{plan_of_content-IsSafePlan, IsSafePlan, IsVetted}
use aotanami.Remediation.Fixes.{
  max_fixes_per_plan, max_fix_patch_bytes, plan_of_content, LlmResponse,
}
use aotanami.Remediation.Paths.Segments.{IsSafePath}
use aotanami.Remediation.Model.{delete, Plan, Finding, Fix}
use aotanami.Remediation.Apply.{
  gitops_pr, report, dry_run, other, Strategy, get_gitops_engine, generate_plan, plan_of_answer,
  applied_of, create_pr, create_with, plan_of_content, ask, Engine, GitOps, apply_by, LlmResponse,
  PullRequestResult, PullRequest, Plan, request_of, apply_plan, FileChange,
}
use aotanami.Prelude.{
  trim_space, ◌⊎◌, suc, ap, arith, refl, ◌∷◌, none, ◌≤◌, map, ◌≡◌, [], length, All, some, ◌≢◌, Text,
  Option, List, ℕ,
}

-- A change that may be committed.
pub record IsSafeChange (change : FileChange) : Type 0 where
  pub safe_path : IsSafePath change.path
  pub small_content : length change.content ≤ max_fix_patch_bytes
  pub has_content : (change.operation ≡ delete) ⊎ (trim_space change.content ≢ [])

-- A pull request that may be submitted: to the repository, with between 1 and 20 changes that may
-- be committed, from a branch whose name is bounded.
pub record IsSafeRequest (owner : Text) (repo : Text) (pr : PullRequest) : Type 0 where
  pub same_owner : pr.repo_owner ≡ owner
  pub same_repo : pr.repo_name ≡ repo
  pub some_change : pr.files ≢ []
  pub few : length pr.files ≤ max_fixes_per_plan
  pub safe : All IsSafeChange pr.files
  pub short_branch : length pr.head_branch ≤ 200

abbrev change_of : Fix → FileChange
change_of fix = record { path = fix.file_path; content = fix.patch; operation = fix.operation }

length-changes : (fixes : List Fix) → length (map change_of fixes) ≡ length fixes
length-changes [] = refl
length-changes (f ∷ fs) = ap suc (length-changes fs)

changes-ne-nil : (fixes : List Fix) → fixes ≢ [] → map change_of fixes ≢ []
changes-ne-nil [] h = absurd (h refl)
changes-ne-nil (f ∷ fs) h = ground arith

changes-IsSafeChange :
    (fixes : List Fix) → All IsVetted fixes → All IsSafeChange (map change_of fixes)
changes-IsSafeChange [] h = tt
changes-IsSafeChange (f ∷ fs) (h, hs) = (
  record { safe_path = h.safe_path; small_content = h.small_patch; has_content = h.has_content },
  changes-IsSafeChange fs hs,
)

-- The request of a safe plan.
request_of-IsSafeRequest :
    (finding : Finding) (plan : Plan) (owner repo : Text)
    → IsSafePlan finding plan
    → IsSafeRequest owner repo (request_of plan owner repo)
unfolding request_of
request_of-IsSafeRequest finding plan owner repo h = record {
  same_owner = refl;
  same_repo = refl;
  some_change = changes-ne-nil plan.fixes h.some_fix;
  few = omega (arith, length-changes plan.fixes, h.few);
  safe = changes-IsSafeChange plan.fixes h.vetted;
  short_branch =
      branch_name-length plan.finding.resource_name plan.finding.resource_namespace
        plan.finding.title;
}

-- A plan, if there is one, is safe.
abbrev pub PlanSafe : Finding → Option Plan → Type 0
PlanSafe finding none = Unit
PlanSafe finding (some plan) = IsSafePlan finding plan

module _ {W : Type 0} (P : W → Type 0) where
  -- Asking the LLM keeps `P`.
  abbrev pub LlmKeeps : Option (Finding → List Text → W → Option Text × W) → Type 0
  LlmKeeps none = Unit
  LlmKeeps (some client) =
      (finding : Finding) (allowed : List Text) (w : W) → P w → P (client finding allowed w).1

  -- Listing the pull requests keeps `P`, and so does submitting one that is safe.
  abbrev pub GitOpsKeeps : Text → Text → Option (GitOps W) → Type 0
  GitOpsKeeps owner repo none = Unit
  GitOpsKeeps owner repo (some g) =
      ((pr : PullRequest) (w : W)
        → IsSafeRequest owner repo pr
        → P w
        → P (g.create_pull_request pr w).1)
      × ((w : W) → P w → P (g.list_open_prs owner repo w).1)

  applied_of-Keeps : (r : Option PullRequestResult × W) → P r.1 → P (applied_of r).1
  applied_of-Keeps (none, w) h = h
  applied_of-Keeps (some r, w) h = h

  create_with-Keeps :
      (owner repo : Text) (o : Option (GitOps W)) (pr : PullRequest) (w : W)
      → GitOpsKeeps owner repo o
      → IsSafeRequest owner repo pr
      → P w
      → P (create_with o pr w).1
  create_with-Keeps owner repo none pr w keeps safe h = h
  create_with-Keeps owner repo (some g) pr w keeps safe h =
      applied_of-Keeps (g.create_pull_request pr w) (keeps.0 pr w safe h)

  apply_by-Keeps :
      (s : Strategy) (e : Engine W) (finding : Finding) (plan : Plan) (owner repo : Text) (w : W)
      → GitOpsKeeps owner repo (get_gitops_engine e owner repo)
      → IsSafePlan finding plan
      → P w
      → P (apply_by s e plan owner repo w).1
  unfolding apply_by create_pr
  apply_by-Keeps dry_run e finding plan owner repo w keeps safe h = h
  apply_by-Keeps report e finding plan owner repo w keeps safe h = h
  apply_by-Keeps (other s) e finding plan owner repo w keeps safe h = h
  apply_by-Keeps gitops_pr e finding plan owner repo w keeps safe h =
      create_with-Keeps owner repo (get_gitops_engine e owner repo) (request_of plan owner repo) w
        keeps (request_of-IsSafeRequest finding plan owner repo safe) h

  pub apply_plan-Keeps :
      (e : Engine W) (finding : Finding) (plan : Plan) (owner repo : Text) (w : W)
      → GitOpsKeeps owner repo (get_gitops_engine e owner repo)
      → IsSafePlan finding plan
      → P w
      → P (apply_plan e plan owner repo w).1
  unfolding apply_plan
  apply_plan-Keeps e = apply_by-Keeps e.strategy e

  module _ (unmarshal : Text → Option LlmResponse) (now : ℕ) (finding : Finding)
      (allowed : List Text) where
    plan_of_answer-Keeps :
        (r : Option Text × W) → P r.1 → P (plan_of_answer unmarshal now finding allowed r).1
    plan_of_answer-Keeps (none, w) h = h
    plan_of_answer-Keeps (some content, w) h = h

    ask-Keeps :
        (o : Option (Finding → List Text → W → Option Text × W)) (w : W)
        → LlmKeeps o
        → P w
        → P (ask unmarshal o now finding allowed w).1
    ask-Keeps none w keeps h = h
    ask-Keeps (some client) w keeps h =
        plan_of_answer-Keeps (client finding allowed w) (keeps finding allowed w h)

    pub generate_plan-Keeps :
        (e : Engine W) (w : W)
        → LlmKeeps e.llm_client
        → P w
        → P (generate_plan unmarshal e now finding allowed w).1
    unfolding generate_plan
    generate_plan-Keeps e = ask-Keeps e.llm_client

module _ (unmarshal : Text → Option LlmResponse) (now : ℕ) (finding : Finding)
    (allowed : List Text) where
  plan_of_content-PlanSafe :
      (content : Text) (o : Option Plan)
      → plan_of_content unmarshal now finding allowed content ≡ o
      → PlanSafe finding o
  plan_of_content-PlanSafe content none e = tt
  plan_of_content-PlanSafe content (some plan) e =
      plan_of_content-IsSafePlan unmarshal now finding allowed content e

  plan_of_answer-PlanSafe :
      {W : Type 0} (r : Option Text × W)
      → PlanSafe finding (plan_of_answer unmarshal now finding allowed r).0
  plan_of_answer-PlanSafe (none, w) = tt
  plan_of_answer-PlanSafe (some content, w) =
      plan_of_content-PlanSafe content (plan_of_content unmarshal now finding allowed content) refl

  ask-PlanSafe :
      {W : Type 0} (o : Option (Finding → List Text → W → Option Text × W)) (w : W)
      → PlanSafe finding (ask unmarshal o now finding allowed w).0
  ask-PlanSafe none w = tt
  ask-PlanSafe (some client) w = plan_of_answer-PlanSafe (client finding allowed w)

  -- What GeneratePlan returns without an error is safe.
  pub generate_plan-PlanSafe :
      {W : Type 0} (e : Engine W) (w : W)
      → PlanSafe finding (generate_plan unmarshal e now finding allowed w).0
  unfolding generate_plan
  generate_plan-PlanSafe e = ask-PlanSafe e.llm_client
