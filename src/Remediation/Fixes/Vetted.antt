-- ===== src/Remediation/Fixes/Vetted.antt =====
-- What GeneratePlan promises of a plan.
use aotanami.Remediation.Json.{extract_json}
use aotanami.Prelude.{
  subst, Elem, All-filter_of_All, length-filter, trim_prefix, refl, Option-cases, any, length-take,
  Bool-cases, ltb, ◌||◌, text_eq_iff, inr, inl, false, text_eq, ◌&&◌, not, ℕ, ◌≤◌, ◌≡◌, ◌≢◌, ◌⊎◌,
  List, [], ◌∷◌, Option, none, some, Text, All, Any, arith, length, take, trim_space,
}
use aotanami.Remediation.Model.{FileOp, Finding, Fix, Plan, delete}
use aotanami.Remediation.Paths.{
  is_under, valid_fix_file_path, filter_fixes_to_allowed_paths, slash, normalized,
}
use aotanami.Remediation.Paths.Segments.{IsSafePath, valid_fix_file_path_iff}
use aotanami.Remediation.Paths.Allowed.{filter_fixes_to_allowed_paths_iff, Under}
use aotanami.Remediation.Fixes.{
  of_decoded, extract_json, negsuc, pos, add_fix, parse_fix_operation, answer, is_delete, FileOp,
  LlmFix, LlmResponse, ℤ, vet_fix, vet_operation, vet_fixes, of_response, extract_fixes,
  plan_of_fixes, plan_of_content, choose_risk, estimate_risk, max_fixes_per_plan,
  max_fix_patch_bytes, max_fix_description_size,
}

-- A fix that may be committed: its path stays inside the repository, its sizes are bounded, and
-- only a deletion leaves no content.
pub record IsVetted (f : Fix) : Type 0 where
  pub safe_path : IsSafePath f.file_path
  pub small_patch : length f.patch ≤ max_fix_patch_bytes
  pub short_description : length f.description ≤ max_fix_description_size
  pub has_content : (f.operation ≡ delete) ⊎ (trim_space f.patch ≢ [])

abbrev Vetted : Option Fix → Type 0
Vetted none = Unit
Vetted (some f) = IsVetted f

vet_operation-Vetted : (f : LlmFix) (op : Option FileOp) → Vetted (vet_operation f op)
unfolding vet_operation
vet_operation-Vetted f none = tt
vet_operation-Vetted f (some op) =
    let test =
      not (valid_fix_file_path f.file_path)
      || ltb max_fix_patch_bytes (length f.patch)
      || (not (is_delete op) && text_eq (trim_space f.patch) []) in
    elim (Bool-cases test) [
      | inl e ↦ rw e tt
      | inr e ↦ rw e (record {
        safe_path = (valid_fix_file_path_iff f.file_path).0 (ground (arith, e));
        small_patch = ground (arith, e);
        short_description = omega (arith, length-take max_fix_description_size f.description);
        has_content = content_or_delete op (ground (arith, e));
      })
    ]
  where
    content_or_delete :
        (op : FileOp)
        → (not (is_delete op) && text_eq (trim_space f.patch) []) ≡ false
        → (op ≡ delete) ⊎ (trim_space f.patch ≢ [])
    content_or_delete delete e = inl refl
    content_or_delete _ e = inr (ground (arith, e, text_eq_iff (trim_space f.patch) []))

vet_fix-Vetted : (f : LlmFix) → Vetted (vet_fix f)
unfolding vet_fix
vet_fix-Vetted f = vet_operation-Vetted f (parse_fix_operation f.operation)

vet_fixes_step :
    (o : Option Fix) (gs : List Fix) → Vetted o → All IsVetted gs → All IsVetted (add_fix o gs)
vet_fixes_step none gs h hs = hs
vet_fixes_step (some g) gs h hs = (h, hs)

vet_fixes-IsVetted : (fs : List LlmFix) → All IsVetted (vet_fixes fs)
unfolding vet_fixes
vet_fixes-IsVetted [] = tt
vet_fixes-IsVetted (f ∷ fs) =
    vet_fixes_step (vet_fix f) (vet_fixes fs) (vet_fix-Vetted f) (vet_fixes-IsVetted fs)

length-vet_fixes : (fs : List LlmFix) → length (vet_fixes fs) ≤ length fs
unfolding vet_fixes
length-vet_fixes [] = omega arith
length-vet_fixes (f ∷ fs) = elim (Option-cases (vet_fix f)) [
  | inl e ↦ rw e (omega (arith, length-vet_fixes fs))
  | inr (g, e) ↦ rw e (omega (arith, length-vet_fixes fs))
]

-- Fixes as extractFixes returns them.
record Extracted (fixes : List Fix) : Type 0 where
  few : length fixes ≤ max_fixes_per_plan
  vetted : All IsVetted fixes

answer-Extracted :
    (resp : LlmResponse) (fixes : List Fix) → Extracted fixes → Extracted (answer resp fixes).0
answer-Extracted resp [] h = h
answer-Extracted resp (f ∷ fs) h = h

no_fixes : Extracted []
no_fixes = record { few = omega arith; vetted = tt }

of_response-Extracted : (resp : LlmResponse) → Extracted (of_response resp).0
unfolding of_response
of_response-Extracted resp =
    let chosen = take max_fixes_per_plan resp.fixes in
    answer-Extracted resp (vet_fixes chosen) (record {
      few = omega (arith, length-vet_fixes chosen, length-take {0} max_fixes_per_plan resp.fixes);
      vetted = vet_fixes-IsVetted chosen;
    })

choose_risk-le : (n : ℤ) (finding : Finding) (fixes : List Fix) → choose_risk n finding fixes ≤ 100
unfolding choose_risk estimate_risk
choose_risk-le (pos n) finding fixes = ground arith
choose_risk-le (negsuc n) finding fixes = ground arith

filter_fixes_to_allowed_paths-Extracted :
    (fixes : List Fix) (allowed : List Text)
    → Extracted fixes
    → Extracted (filter_fixes_to_allowed_paths fixes allowed)
unfolding filter_fixes_to_allowed_paths
filter_fixes_to_allowed_paths-Extracted fixes [] h = h
filter_fixes_to_allowed_paths-Extracted fixes (a ∷ allowed) h =
    let under = λ (f : Fix).
      any (λ p. is_under (trim_prefix f.file_path slash) (normalized p)) (a ∷ allowed) in
    elim (Bool-cases (any (λ p. text_eq (normalized p) []) (a ∷ allowed))) [
      | inl e ↦ rw e h
      | inr e ↦ rw e (record {
        few = omega (arith, h.few, length-filter {0} under fixes);
        vetted = All-filter_of_All IsVetted under fixes h.vetted;
      })
    ]

-- A plan that may be applied.
pub record IsSafePlan (finding : Finding) (plan : Plan) : Type 0 where
  pub of_finding : plan.finding ≡ finding
  pub some_fix : plan.fixes ≢ []
  pub few : length plan.fixes ≤ max_fixes_per_plan
  pub vetted : All IsVetted plan.fixes
  pub risk_in_range : plan.risk_score ≤ 100

-- The plan, if there is one, has these fixes and is safe.
abbrev SafeSome : Finding → List Fix → Option Plan → Type 0
SafeSome finding fixes none = Unit
SafeSome finding fixes (some plan) = (plan.fixes ≡ fixes) × IsSafePlan finding plan

plan_of_fixes-SafeSome :
    (now : ℕ) (finding : Finding) (analysis : Text) (risk : ℤ) (fixes : List Fix)
    → Extracted fixes
    → SafeSome finding fixes (plan_of_fixes now finding analysis risk fixes)
unfolding plan_of_fixes
plan_of_fixes-SafeSome now finding analysis risk [] h = tt
plan_of_fixes-SafeSome now finding analysis risk (f ∷ fs) h = (
  refl,
  record {
    of_finding = refl;
    some_fix = ground arith;
    few = h.few;
    vetted = h.vetted;
    risk_in_range = choose_risk-le risk finding (f ∷ fs);
  },
)

of_decoded-Extracted :
    (content : Text) (o : Option LlmResponse) → Extracted (of_decoded content o).0
of_decoded-Extracted content none = no_fixes
of_decoded-Extracted content (some resp) = of_response-Extracted resp

module _ (unmarshal : Text → Option LlmResponse) (now : ℕ) (finding : Finding) (allowed : List Text)
    (content : Text) where
  extract_fixes-Extracted : Extracted (extract_fixes unmarshal content).0
  unfolding extract_fixes
  extract_fixes-Extracted =
      let json = extract_json content in
      elim (Bool-cases (text_eq json [])) [
        | inl e ↦ rw e no_fixes
        | inr e ↦ rw e (of_decoded-Extracted content (unmarshal json))
      ]

  kept-SafeSome :
      SafeSome finding
        (filter_fixes_to_allowed_paths (extract_fixes unmarshal content).0 allowed)
        (plan_of_content unmarshal now finding allowed content)
  unfolding plan_of_content
  kept-SafeSome =
      let (fixes, analysis, risk) = extract_fixes unmarshal content in
      plan_of_fixes-SafeSome now finding analysis risk (filter_fixes_to_allowed_paths fixes allowed)
        (filter_fixes_to_allowed_paths-Extracted fixes allowed extract_fixes-Extracted)

  -- Whatever the LLM answers and however its JSON is decoded: a plan that GeneratePlan returns is
  -- for the finding and has between 1 and 20 fixes and a risk of at most 100. Each fix has a safe
  -- path, at most 256 KiB of content and 4 KiB of description, and content that is not blank unless
  -- it deletes the file.
  pub plan_of_content-IsSafePlan :
      {plan : Plan}
      → plan_of_content unmarshal now finding allowed content ≡ some plan
      → IsSafePlan finding plan
  plan_of_content-IsSafePlan e =
      (subst
        (SafeSome finding
          (filter_fixes_to_allowed_paths (extract_fixes unmarshal content).0 allowed))
        e kept-SafeSome).1

module _ (unmarshal : Text → Option LlmResponse) (now : ℕ) (finding : Finding) (a : Text)
    (allowed : List Text) (content : Text) where
  -- Whatever the LLM answers: where no allowed path is the whole repository, each fix of the plan
  -- has a path that is an allowed path or lies below one.
  pub plan_stays_allowed :
      {plan : Plan} (f : Fix)
      → any (λ p. text_eq (normalized p) []) (a ∷ allowed) ≡ false
      → plan_of_content unmarshal now finding (a ∷ allowed) content ≡ some plan
      → Elem f plan.fixes
      → Any (λ p. Under (trim_prefix f.file_path slash) (normalized p)) (a ∷ allowed)
  plan_stays_allowed {plan} f partial e m =
      let fixes = (extract_fixes unmarshal content).0 in
      let kept = filter_fixes_to_allowed_paths fixes (a ∷ allowed) in
      let same =
        (subst (SafeSome finding kept) e
          (kept-SafeSome unmarshal now finding (a ∷ allowed) content)).0 in
      ((filter_fixes_to_allowed_paths_iff f fixes a allowed partial).0 (subst (Elem f) same m)).1
