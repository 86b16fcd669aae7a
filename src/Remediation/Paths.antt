-- ===== src/Remediation/Paths.antt =====
-- File paths of internal/remediation/engine.go: validFixFilePath and filterFixesToAllowedPaths.
pub mod Segments
pub mod Allowed
use aotanami.Prelude.{
  ℕ, ◌≡◌, Bool, true, false, not, ◌&&◌, ◌||◌, List, [], ◌∷◌, ◌++◌, Text, codes, text_eq, has_prefix,
  split, trim_prefix, trim_suffix, ltb, ◌==◌, if◌then◌else◌, length, any, all, filter, map,
}
use aotanami.Remediation.Model.{Fix}

abbrev pub slash : Text
slash = b'/' ∷ []

abbrev pub max_fix_file_path_len : ℕ
max_fix_file_path_len = 512

-- A segment that the loop of validFixFilePath lets pass.
abbrev pub is_plain_segment : Text → Bool
is_plain_segment seg = not (text_eq seg [] || text_eq seg (codes ".") || text_eq seg (codes ".."))

-- validFixFilePath
unfoldable pub valid_fix_file_path : Text → Bool
valid_fix_file_path p =
    not (text_eq p [] || ltb max_fix_file_path_len (length p))
    && not (has_prefix p slash || any (λ c. c == 0) p)
    && all is_plain_segment (split b'/' p)

-- An allowed path without its outer slashes.
abbrev pub normalized : Text → Text
normalized p = trim_prefix (trim_suffix p slash) slash

-- The inner test of filterFixesToAllowedPaths at a prefix `p + "/"`.
unfoldable pub is_under : Text → Text → Bool
is_under fp p = has_prefix (fp ++ slash) (p ++ slash) || text_eq fp (trim_suffix (p ++ slash) slash)

-- filterFixesToAllowedPaths
unfoldable pub filter_fixes_to_allowed_paths : List Fix → List Text → List Fix
unfolding is_under
filter_fixes_to_allowed_paths fixes [] = fixes
filter_fixes_to_allowed_paths fixes (a ∷ allowed) =
    if any (λ p. text_eq (normalized p) []) (a ∷ allowed)
    then fixes
    else filter
        (λ f. any (λ p. is_under (trim_prefix f.file_path slash) (normalized p)) (a ∷ allowed))
        fixes
