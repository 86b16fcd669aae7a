-- ===== src/Remediation/Fixes/Tests.antt =====
-- GeneratePlan at a concrete answer.
use aotanami.Prelude.{
  ◌≡◌, ◌↔◌, refl, Text, codes, Option, some, [], ◌∷◌, text_eq, has_prefix, split, trim_suffix, Any,
  Elem, any, false, true, inl, trim_prefix,
}
use aotanami.Remediation.Model.{Finding, Fix, Plan, update}
use aotanami.Remediation.Paths.{
  slash, normalized, valid_fix_file_path, filter_fixes_to_allowed_paths,
}
use aotanami.Remediation.Paths.Segments.{IsSafePath, valid_fix_file_path_iff}
use aotanami.Remediation.Paths.Allowed.{Under, filter_fixes_to_allowed_paths_iff}
use aotanami.Remediation.Json.{extract_json}
use aotanami.Remediation.Fixes.{LlmFix, LlmResponse, pos, plan_of_content}
use aotanami.Remediation.Fixes.Vetted.{IsSafePlan, plan_of_content-IsSafePlan, plan_stays_allowed}

abbrev finding : Finding
finding = record {
  rule_type = codes "pod-security";
  severity = codes "high";
  title = codes "runs as root";
  description = [];
  resource_kind = codes "Pod";
  resource_namespace = codes "prod";
  resource_name = codes "web";
  recommendation = [];
}

abbrev good_fix : LlmFix
good_fix = record {
  file_path = codes "helm/demo/web.yaml";
  description = codes "run as a user";
  patch = codes "kind: Pod";
  operation = codes "update";
}

-- Of these four only the first is committed.
abbrev response : LlmResponse
response = record {
  analysis = codes "root";
  fixes =
      good_fix
      ∷ record good_fix { file_path = codes "helm/../secrets" }
      ∷ record good_fix { file_path = codes "helm/demo-2/web.yaml" }
      ∷ record good_fix { patch = codes "  " }
      ∷ [];
  risk_assessment = [];
  risk_score = some (pos 120);
}

abbrev decode : Text → Option LlmResponse
decode json = some response

abbrev kept : Fix
kept = record {
  description = codes "run as a user";
  file_path = codes "helm/demo/web.yaml";
  patch = codes "kind: Pod";
  operation = update;
}

abbrev plan : Plan
plan = record {
  finding = finding;
  fixes = kept ∷ [];
  llm_analysis = codes "root";
  risk_score = 25;
  created_at = 7;
}

plan_is_generated :
    plan_of_content decode 7 finding (codes "/helm/demo/" ∷ []) (codes "{}") ≡ some plan
unfolding plan_of_content extract_json has_prefix text_eq split trim_suffix
    filter_fixes_to_allowed_paths valid_fix_file_path
plan_is_generated = refl

plan_of_content-IsSafePlan_example : IsSafePlan finding plan
plan_of_content-IsSafePlan_example =
    plan_of_content-IsSafePlan decode 7 finding (codes "/helm/demo/" ∷ []) (codes "{}")
      plan_is_generated

abbrev allowed : Text
allowed = codes "/helm/demo/"

not_whole_repo : any (λ p. text_eq (normalized p) []) (allowed ∷ []) ≡ false
unfolding text_eq trim_suffix
not_whole_repo = refl

plan_stays_allowed_example :
    Any (λ p. Under (trim_prefix kept.file_path slash) (normalized p)) (allowed ∷ [])
plan_stays_allowed_example =
    plan_stays_allowed decode 7 finding allowed [] (codes "{}") kept not_whole_repo
      plan_is_generated (inl refl)

filter_fixes_to_allowed_paths_iff_example :
    Elem kept (filter_fixes_to_allowed_paths (kept ∷ []) (allowed ∷ [])) ↔ (
      Elem kept (kept ∷ [])
      × Any (λ p. Under (trim_prefix kept.file_path slash) (normalized p)) (allowed ∷ []))
filter_fixes_to_allowed_paths_iff_example =
    filter_fixes_to_allowed_paths_iff kept (kept ∷ []) allowed [] not_whole_repo

valid_fix_file_path_iff_example :
    (valid_fix_file_path (codes "a/b.yaml") ≡ true) ↔ IsSafePath (codes "a/b.yaml")
valid_fix_file_path_iff_example = valid_fix_file_path_iff (codes "a/b.yaml")
