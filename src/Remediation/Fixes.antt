-- ===== src/Remediation/Fixes.antt =====
-- internal/remediation/engine.go: extractFixes, estimateRisk and GeneratePlan. `unmarshal` is
-- `json.Unmarshal` into llmResponse; it may be any function.
pub mod Vetted
mod Tests
use aotanami.Prelude.{
  trim_space, ℕ, ◌+◌, ◌*◌, ◌≡◌, Bool, true, false, not, ◌&&◌, ◌||◌, Option, none, some, List, [],
  ◌∷◌, ◌++◌, Text, codes, text_eq, has_prefix, ltb, leb, ◌==◌, if◌then◌else◌, length, take, min,
  filter,
}
use aotanami.Remediation.Json.{extract_json}
use aotanami.Remediation.Model.{Finding, FileOp, create, update, delete, Fix, Plan}
use aotanami.Remediation.Paths.{valid_fix_file_path, filter_fixes_to_allowed_paths}

-- A Go `int`: `negsuc n` is -(n + 1).
pub data ℤ : Type 0 where
  pos : ℕ → ℤ
  negsuc : ℕ → ℤ

-- llmFix and llmResponse
pub record LlmFix : Type 0 where
  pub file_path : Text
  pub description : Text
  pub patch : Text
  pub operation : Text

pub record LlmResponse : Type 0 where
  pub analysis : Text
  pub fixes : List LlmFix
  pub risk_assessment : Text
  pub risk_score : Option ℤ

abbrev pub max_fixes_per_plan : ℕ
max_fixes_per_plan = 20

abbrev pub max_fix_patch_bytes : ℕ
max_fix_patch_bytes = 256 * 1024

abbrev pub max_fix_description_size : ℕ
max_fix_description_size = 4 * 1024

-- parseFixOperation
pub parse_fix_operation : Text → Option FileOp
parse_fix_operation op =
    if text_eq op (codes "create")
    then some create
    else if text_eq op (codes "update")
    then some update
    else if text_eq op (codes "delete")
    then some delete
    else none

abbrev is_delete : FileOp → Bool
is_delete delete = true
is_delete _ = false

-- The finding of a rule that begins with the prefix and goes on.
abbrev longer_than_prefix : Text → Text → Bool
longer_than_prefix rule p = ltb (length p) (length rule) && has_prefix rule p

-- isCloudFinding
unfoldable pub is_cloud_finding : Text → Bool
is_cloud_finding rule =
    longer_than_prefix rule (codes "cspm-")
    || longer_than_prefix rule (codes "ciem-")
    || longer_than_prefix rule (codes "network-")
    || longer_than_prefix rule (codes "dspm-")
    || longer_than_prefix rule (codes "supplychain-")
    || longer_than_prefix rule (codes "cicd-")

base_risk : Text → ℕ
base_risk severity =
    if text_eq severity (codes "critical")
    then 10
    else if text_eq severity (codes "high")
    then 20
    else if text_eq severity (codes "medium")
    then 40
    else if text_eq severity (codes "low")
    then 60
    else 30

-- estimateRisk
pub estimate_risk : Finding → List Fix → ℕ
unfolding base_risk
estimate_risk finding fixes = min (base_risk finding.severity + length fixes * 5) 100

-- The score of a plan: the LLM's if it lies in 0..100, else the estimate.
pub choose_risk : ℤ → Finding → List Fix → ℕ
unfolding estimate_risk
choose_risk (pos n) finding fixes = if leb n 100 then n else estimate_risk finding fixes
choose_risk (negsuc n) finding fixes = estimate_risk finding fixes

-- The sentinel -1 of extractFixes.
abbrev no_score : ℤ
no_score = negsuc 0

abbrev score_or : Option ℤ → ℤ
score_or none = no_score
score_or (some n) = n

-- The body of the loop of extractFixes, after the operation is parsed.
vet_operation : LlmFix → Option FileOp → Option Fix
vet_operation f none = none
vet_operation f (some op) =
    if not (valid_fix_file_path f.file_path)
      || ltb max_fix_patch_bytes (length f.patch)
      || (not (is_delete op) && text_eq (trim_space f.patch) [])
    then none
    else some (record {
      description = take max_fix_description_size f.description;
      file_path = f.file_path;
      patch = f.patch;
      operation = op;
    })

-- The body of the loop of extractFixes.
pub vet_fix : LlmFix → Option Fix
unfolding vet_operation parse_fix_operation
vet_fix f = vet_operation f (parse_fix_operation f.operation)

abbrev add_fix : Option Fix → List Fix → List Fix
add_fix none gs = gs
add_fix (some g) gs = g ∷ gs

-- The loop.
pub vet_fixes : List LlmFix → List Fix
unfolding vet_fix
vet_fixes [] = []
vet_fixes (f ∷ fs) = add_fix (vet_fix f) (vet_fixes fs)

-- The analysis with the risk assessment behind it.
abbrev with_assessment : LlmResponse → Text
with_assessment resp =
    if text_eq resp.risk_assessment []
    then resp.analysis
    else resp.analysis ++ ((10 ∷ 10 ∷ codes "Risk Assessment: ") ++ resp.risk_assessment)

-- The end of extractFixes, by what the loop let through.
abbrev answer : LlmResponse → List Fix → List Fix × Text × ℤ
answer resp [] = ([], resp.analysis, no_score)
answer resp (f ∷ fs) = (f ∷ fs, with_assessment resp, score_or resp.risk_score)

-- extractFixes of a decoded response.
pub of_response : LlmResponse → List Fix × Text × ℤ
unfolding vet_fixes
of_response resp = answer resp (vet_fixes (take max_fixes_per_plan resp.fixes))

-- extractFixes by what the decoder makes of the JSON text.
abbrev of_decoded : Text → Option LlmResponse → List Fix × Text × ℤ
of_decoded content none = ([], content, no_score)
of_decoded content (some resp) = of_response resp

-- The end of GeneratePlan, by the fixes that are left.
pub plan_of_fixes : ℕ → Finding → Text → ℤ → List Fix → Option Plan
unfolding choose_risk
plan_of_fixes now finding analysis risk [] = none
plan_of_fixes now finding analysis risk (f ∷ fs) = some (record {
  finding = finding;
  fixes = f ∷ fs;
  llm_analysis = analysis;
  risk_score = choose_risk risk finding (f ∷ fs);
  created_at = now;
})

module _ (unmarshal : Text → Option LlmResponse) where
  -- extractFixes of the JSON text.
  of_json : Text → Text → List Fix × Text × ℤ
  unfolding of_response
  of_json content json =
      if text_eq json []
      then ([], content, no_score)
      else elim (unmarshal json) [ none ↦ ([], content, no_score) | some resp ↦ of_response resp ]

  -- extractFixes
  pub extract_fixes : Text → List Fix × Text × ℤ
  unfolding of_json
  extract_fixes content = of_json content (extract_json content)

  -- GeneratePlan after the call of the LLM: `none` is the error that no valid fix was produced.
  unfoldable pub plan_of_content : ℕ → Finding → List Text → Text → Option Plan
  unfolding plan_of_fixes extract_fixes
  plan_of_content now finding allowed content =
      let (fixes, analysis, risk) = extract_fixes content in
      plan_of_fixes now finding analysis risk (filter_fixes_to_allowed_paths fixes allowed)
