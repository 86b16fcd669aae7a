-- ===== src/Compliance/Evaluate/Matches.antt =====
-- What the loop over the rule types of a control finds.
use aotanami.Prelude.{
  text_eq_iff, Elem-append_iff, [], text_eq, ◌++◌, ◌∷◌, refl, arith, inr, map, Elem, inl, ◌↔◌, ◌⊎◌,
  Bool-cases, true, Any, ◌≡◌, false, ◌||◌, Text, ℕ, Bool, List,
}
use aotanami.Compliance.Evaluate.{evidence_of, Evidence, is_violated, violations_of, match_rules}
use aotanami.Compliance.Model.{Evidence, Control}
use aotanami.Remediation.Model.{Finding}

-- A finding of one of the control's rule types.
abbrev pub IsBreached : List Finding → Control → Type 0
IsBreached findings c =
    Any (λ rule_type. Any (λ f. f.rule_type ≡ rule_type) findings) c.related_rule_types

-- The evidence stems from a finding of one of the rule types.
abbrev pub IsProof : ℕ → List Finding → List Text → Evidence → Type 0
IsProof now findings rule_types ev =
    Any (λ rule_type. Any (λ f. (f.rule_type ≡ rule_type) × (ev ≡ evidence_of now f)) findings)
      rule_types

is_violated_iff :
    (findings : List Finding) (rule_type : Text)
    → (is_violated (violations_of findings rule_type) ≡ true)
      ↔ Any (λ f. f.rule_type ≡ rule_type) findings
unfolding violations_of
is_violated_iff [] rule_type = ((λ e. absurd (ground (arith, e))), λ m. absurd m)
is_violated_iff (f ∷ fs) rule_type =
    let (to, from) = is_violated_iff fs rule_type in
    elim (Bool-cases (text_eq f.rule_type rule_type)) [
      | inl e ↦ rw e ((λ _. inl ((text_eq_iff _ _).0 e)), λ _. refl)
      | inr e ↦ rw e (
        (λ h. inr (to h)),
        elim [
          | inl same ↦ absurd (ground (arith, e, (text_eq_iff f.rule_type rule_type).1 same))
          | inr m ↦ from m
        ],
      )
    ]

Elem-evidence_iff :
    (now : ℕ) (findings : List Finding) (rule_type : Text) (ev : Evidence)
    → Elem ev (map (evidence_of now) (violations_of findings rule_type))
      ↔ Any (λ f. (f.rule_type ≡ rule_type) × (ev ≡ evidence_of now f)) findings
unfolding violations_of
Elem-evidence_iff now [] rule_type ev = ((λ m. m), λ m. m)
Elem-evidence_iff now (f ∷ fs) rule_type ev =
    let (to, from) = Elem-evidence_iff now fs rule_type ev in
    elim (Bool-cases (text_eq f.rule_type rule_type)) [
      | inl e ↦ rw e (
        elim [ inl h ↦ inl ((text_eq_iff _ _).0 e, h) | inr m ↦ inr (to m) ],
        elim [ inl (_, h) ↦ inl h | inr m ↦ inr (from m) ],
      )
      | inr e ↦ rw e (
        (λ m. inr (to m)),
        elim [
          | inl (same, _) ↦ absurd (ground (arith, e, (text_eq_iff f.rule_type rule_type).1 same))
          | inr m ↦ from m
        ],
      )
    ]

or-cases : (a b : Bool) → (a || b) ≡ true → (a ≡ true) ⊎ (b ≡ true)
or-cases true b e = inl refl
or-cases false b e = inr e

pub match_rules-failed :
    (now : ℕ) (findings : List Finding) (rule_types : List Text) (failed : Bool)
    (evidence : List Evidence)
    → ((match_rules now findings rule_types failed evidence).0 ≡ true) ↔ (
        (failed ≡ true) ⊎ Any (λ rule_type. Any (λ f. f.rule_type ≡ rule_type) findings) rule_types)
unfolding match_rules
match_rules-failed now findings [] failed evidence = (inl, elim [ inl e ↦ e | inr m ↦ absurd m ])
match_rules-failed now findings (rule_type ∷ rule_types) failed evidence =
    let matched = violations_of findings rule_type in
    let (to, from) =
      match_rules-failed now findings rule_types (failed || is_violated matched)
        (evidence ++ map (evidence_of now) matched) in
    let (breached, breach) = is_violated_iff findings rule_type in
    (
      (λ h. elim (to h) [
        | inl e ↦ elim (or-cases failed (is_violated matched) e) [
          | inl a ↦ inl a
          | inr b ↦ inr (inl (breached b))
        ]
        | inr m ↦ inr (inr m)
      ]),
      elim [
        | inl a ↦ from (inl (ground (arith, a)))
        | inr m ↦ elim m [ inl k ↦ from (inl (ground (arith, breach k))) | inr k ↦ from (inr k) ]
      ],
    )

pub match_rules-evidence :
    (now : ℕ) (findings : List Finding) (rule_types : List Text) (failed : Bool)
    (evidence : List Evidence) (ev : Evidence)
    → Elem ev (match_rules now findings rule_types failed evidence).1
      ↔ (Elem ev evidence ⊎ IsProof now findings rule_types ev)
unfolding match_rules
match_rules-evidence now findings [] failed evidence ev =
    (inl, elim [ inl e ↦ e | inr m ↦ absurd m ])
match_rules-evidence now findings (rule_type ∷ rule_types) failed evidence ev =
    let matched = violations_of findings rule_type in
    let (to, from) =
      match_rules-evidence now findings rule_types (failed || is_violated matched)
        (evidence ++ map (evidence_of now) matched) ev in
    let (split, glue) = Elem-append_iff ev evidence (map (evidence_of now) matched) in
    let (proof, proves) = Elem-evidence_iff now findings rule_type ev in
    (
      (λ h. elim (to h) [
        | inl m ↦ elim (split m) [ inl a ↦ inl a | inr b ↦ inr (inl (proof b)) ]
        | inr m ↦ inr (inr m)
      ]),
      elim [
        | inl a ↦ from (inl (glue (inl a)))
        | inr m ↦ elim m [ inl k ↦ from (inl (glue (inr (proves k)))) | inr k ↦ from (inr k) ]
      ],
    )
