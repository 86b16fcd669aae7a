-- ===== src/GitHub/Paths.antt =====
-- internal/github/engine.go: safeRepoPath. `path_escape` is `url.PathEscape`.
use aotanami.Remediation.Paths.Segments.{join}
use aotanami.Prelude.{
  refl, ap, arith, false, map, true, ◌≡◌, all, split, has_prefix, ◌==◌, none, any, ◌||◌, [], not,
  text_eq, ◌∷◌, some, if◌then◌else◌, List, Option, Text,
}
use aotanami.Remediation.Paths.{valid_fix_file_path, is_plain_segment, slash}

abbrev push_segment : Text → Option (List Text) → Option (List Text)
push_segment seg none = none
push_segment seg (some segs) = some (seg ∷ segs)

abbrev joined : Option (List Text) → Option Text
joined none = none
joined (some segs) = some (join segs)

module _ (path_escape : Text → Text) where
  -- The loop of safeRepoPath.
  escape_segments : List Text → Option (List Text)
  escape_segments [] = some []
  escape_segments (seg ∷ segs) =
      if not (is_plain_segment seg)
      then none
      else push_segment (path_escape seg) (escape_segments segs)

  -- safeRepoPath; `none` is an error.
  unfoldable pub safe_repo_path : Text → Option Text
  unfolding escape_segments
  safe_repo_path p =
      if text_eq p [] || any (λ c. c == b'\\') p || has_prefix p slash
      then none
      else joined (escape_segments (split b'/' p))

  escape_plain :
      (segs : List Text)
      → all is_plain_segment segs ≡ true
      → escape_segments segs ≡ some (map path_escape segs)
  unfolding escape_segments
  escape_plain [] h = refl
  escape_plain (seg ∷ segs) h =
      let plain : is_plain_segment seg ≡ true = ground (arith, h) in
      rw plain (ap (push_segment (path_escape seg)) (escape_plain segs (ground (arith, h))))

  -- A path that passes validFixFilePath and has no backslash is not refused by safeRepoPath: it is sent
  -- as its segments, each escaped, with the slashes between them.
  pub vetted_path_is_sent :
      (p : Text)
      → valid_fix_file_path p ≡ true
      → any (λ c. c == b'\\') p ≡ false
      → safe_repo_path p ≡ some (join (map path_escape (split b'/' p)))
  unfolding safe_repo_path valid_fix_file_path
  vetted_path_is_sent p valid no_backslash =
      let accepted : (text_eq p [] || any (λ c. c == b'\\') p || has_prefix p slash) ≡ false =
        ground (arith, valid, no_backslash) in
      rw accepted (ap joined (escape_plain (split b'/' p) (ground (arith, valid))))
