-- ===== src/Remediation/Paths/Allowed.antt =====
-- Which fixes filterFixesToAllowedPaths keeps.
use mathlib.Core.List.{reverse-append, reverse-reverse}
use aotanami.Prelude.{
  sym, any_iff, Elem-filter_iff, trim_prefix, ◌∙◌, append_assoc, false, has_prefix-append,
  text_eq_iff, text_eq, append-nil, has_prefix_split, Bool-cases, has_prefix, any, refl,
  length-append, length, inr, ap, inl, trim_suffix, ◌⊎◌, ◌≡◌, ◌↔◌, true, List, [], ◌∷◌, ◌++◌, arith,
  Text, Any, Elem,
}
use aotanami.Remediation.Model.{Fix}
use aotanami.Remediation.Paths.{is_under, filter_fixes_to_allowed_paths, slash, normalized}

-- `fp` is the directory `p` or a path below it: `p`, or `p`, a slash and more.
abbrev pub Under : Text → Text → Type 0
Under fp p = (fp ≡ p) ⊎ ((rest : Text) × (fp ≡ p ++ (b'/' ∷ rest)))

-- Matching whole segments: what begins with `p/` when a slash is added is `p` or begins with `p/`.
prefix-Under : (fp p r : Text) → fp ++ slash ≡ (p ++ slash) ++ r → Under fp p
prefix-Under [] [] r h = inl refl
prefix-Under [] (d ∷ p) r h =
    absurd (omega (arith, ap length h, length-append {0} (p ++ slash) r, length-append {0} p slash))
prefix-Under (c ∷ fp) [] r h = inr (fp, cc)
prefix-Under (c ∷ fp) (d ∷ p) r h =
    let parts : (c ≡ d) × (fp ++ slash ≡ (p ++ slash) ++ r) = ground arith in
    elim (prefix-Under fp p r parts.1) [
      | inl e ↦ inl (cc (parts.0, e))
      | inr (rest, e) ↦ inr (rest, cc (parts.0, e))
    ]

trim_suffix-append : (p : Text) → trim_suffix (p ++ slash) slash ≡ p
unfolding trim_suffix
trim_suffix-append p = rw reverse-append (reverse-reverse p)

Under-has_prefix : (fp p : Text) → Under fp p → has_prefix (fp ++ slash) (p ++ slash) ≡ true
Under-has_prefix fp p (inl e) =
    let whole : p ++ slash ≡ (p ++ slash) ++ [] = sym (append-nil (p ++ slash)) in
    ap (λ t. has_prefix t (p ++ slash)) (ap (λ t. t ++ slash) e ∙ whole)
    ∙ has_prefix-append (p ++ slash) []
Under-has_prefix fp p (inr (rest, e)) =
    let shape : fp ++ slash ≡ (p ++ slash) ++ (rest ++ slash) = rw e (simp append_assoc) in
    rw shape (has_prefix-append (p ++ slash) (rest ++ slash))

is_under_iff : (fp p : Text) → (is_under fp p ≡ true) ↔ Under fp p
unfolding is_under
is_under_iff fp p = (
  λ h. elim (Bool-cases (has_prefix (fp ++ slash) (p ++ slash))) [
    | inl e ↦ let (r, eq) = has_prefix_split (fp ++ slash) (p ++ slash) e in prefix-Under fp p r eq
    | inr e ↦
        let same : text_eq fp (trim_suffix (p ++ slash) slash) ≡ true = ground (arith, e, h) in
        inl ((text_eq_iff fp (trim_suffix (p ++ slash) slash)).0 same ∙ trim_suffix-append p)
  ],
  λ u. ground (arith, Under-has_prefix fp p u),
)

-- If there is an allowed path, and none of them is the whole repository, the fixes that are kept
-- are exactly those whose path, without a leading slash, is an allowed path or below one, segment
-- by segment.
pub filter_fixes_to_allowed_paths_iff :
    (f : Fix) (fixes : List Fix) (a : Text) (allowed : List Text)
    → any (λ p. text_eq (normalized p) []) (a ∷ allowed) ≡ false
    → Elem f (filter_fixes_to_allowed_paths fixes (a ∷ allowed)) ↔ (
        Elem f fixes
        × Any (λ p. Under (trim_prefix f.file_path slash) (normalized p)) (a ∷ allowed))
unfolding filter_fixes_to_allowed_paths
filter_fixes_to_allowed_paths_iff f fixes a allowed partial =
    let test = λ (g : Fix).
      any (λ p. is_under (trim_prefix g.file_path slash) (normalized p)) (a ∷ allowed) in
    let (to, from) = Elem-filter_iff test f fixes in
    let (to', from') =
      any_iff (λ p. is_under (trim_prefix f.file_path slash) (normalized p))
        (λ p. Under (trim_prefix f.file_path slash) (normalized p))
        (λ p. is_under_iff (trim_prefix f.file_path slash) (normalized p)) (a ∷ allowed) in
    rw partial (λ m. ((to m).0, to' (to m).1), λ k. from (k.0, from' k.1))
