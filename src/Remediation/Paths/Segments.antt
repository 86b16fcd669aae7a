-- ===== src/Remediation/Paths/Segments.antt =====
-- What validFixFilePath promises of a path.
use aotanami.Prelude.{
  sym, ltb, All-map, false, any, has_prefix, text_eq_iff, Bool, all, refl, ◌==◌, ap, ◌∙◌, cut, ℕ,
  ◌≤◌, ◌≡◌, ◌≢◌, ◌↔◌, true, List, [], ◌∷◌, ◌++◌, arith, Text, codes, split, All, length,
}
use aotanami.Remediation.Paths.{valid_fix_file_path, slash, is_plain_segment, max_fix_file_path_len}

-- The parts with a slash between them.
abbrev pub join : List Text → Text
join [] = []
join (p ∷ []) = p
join (p ∷ q ∷ ps) = p ++ (b'/' ∷ join (q ∷ ps))

-- A name of a directory entry: not empty, not `.`, not `..`, and without a slash.
pub record IsName (seg : Text) : Type 0 where
  pub not_empty : seg ≢ []
  pub not_dot : seg ≢ codes "."
  pub not_dot_dot : seg ≢ codes ".."
  pub no_slash : All (λ c. c ≢ b'/') seg

cut-join :
    (c : ℕ) (parts : List Text) → parts ≢ [] → join (cut (c == b'/') c parts) ≡ c ∷ join parts
cut-join c [] h = absurd (h refl)
cut-join c (p ∷ []) h = ground arith
cut-join c (p ∷ q ∷ ps) h = ground arith

cut-ne-nil : (b : Bool) (c : ℕ) (parts : List Text) → cut b c parts ≢ []
cut-ne-nil true c parts = ground arith
cut-ne-nil false c [] = ground arith
cut-ne-nil false c (p ∷ ps) = ground arith

split-ne-nil : (s : Text) → split b'/' s ≢ []
unfolding split
split-ne-nil [] = ground arith
split-ne-nil (c ∷ s) = cut-ne-nil (c == b'/') c (split b'/' s)

join-split : (s : Text) → join (split b'/' s) ≡ s
unfolding split
join-split [] = refl
join-split (c ∷ s) = cut-join c (split b'/' s) (split-ne-nil s) ∙ ap (λ t. c ∷ t) (join-split s)

abbrev NoSlash : Text → Type 0
NoSlash = All (λ c. c ≢ b'/')

cut-NoSlash :
    (b : Bool) (c : ℕ) (parts : List Text)
    → (b ≡ false → c ≢ b'/')
    → All NoSlash parts
    → All NoSlash (cut b c parts)
cut-NoSlash true c parts h k = (tt, k)
cut-NoSlash false c [] h k = ((h refl, tt), tt)
cut-NoSlash false c (p ∷ ps) h (k, ks) = ((h refl, k), ks)

split-NoSlash : (s : Text) → All NoSlash (split b'/' s)
unfolding split
split-NoSlash [] = (tt, tt)
split-NoSlash (c ∷ s) =
    cut-NoSlash (c == b'/') c (split b'/' s) (λ e. ground arith) (split-NoSlash s)

split_one : (p : Text) → NoSlash p → split b'/' p ≡ p ∷ []
unfolding split
split_one [] h = refl
split_one (c ∷ p) (h, hs) = ground (arith, split_one p hs)

split-append : (p rest : Text) → NoSlash p → split b'/' (p ++ (b'/' ∷ rest)) ≡ p ∷ split b'/' rest
unfolding split
split-append [] rest h = refl
split-append (c ∷ p) rest (h, hs) = ground (arith, split-append p rest hs)

split-join :
    (p : Text) (ps : List Text) → All NoSlash (p ∷ ps) → split b'/' (join (p ∷ ps)) ≡ p ∷ ps
split-join p [] (h, hs) = split_one p h
split-join p (q ∷ ps) (h, hs) =
    split-append p (join (q ∷ ps)) h ∙ ap (λ t. p ∷ t) (split-join q ps hs)

is_plain_segment_iff :
    (seg : Text)
    → (is_plain_segment seg ≡ true) ↔ ((seg ≢ []) × (seg ≢ codes ".") × (seg ≢ codes ".."))
is_plain_segment_iff seg =
    ground (arith, text_eq_iff seg [], text_eq_iff seg (codes "."), text_eq_iff seg (codes ".."))

-- Segments without slashes that pass the loop are names.
segments-IsName :
    (segs : List Text) → All NoSlash segs → all is_plain_segment segs ≡ true → All IsName segs
segments-IsName [] h k = tt
segments-IsName (seg ∷ segs) (h, hs) k =
    let parts : (is_plain_segment seg ≡ true) × (all is_plain_segment segs ≡ true) =
      ground (arith, k) in
    let (one, two, three) = (is_plain_segment_iff seg).0 parts.0 in
    (
      record { not_empty = one; not_dot = two; not_dot_dot = three; no_slash = h },
      segments-IsName segs hs parts.1,
    )

names_pass : (names : List Text) → All IsName names → all is_plain_segment names ≡ true
names_pass [] h = refl
names_pass (n ∷ ns) (h, hs) =
    let plain = (is_plain_segment_iff n).1 (h.not_empty, h.not_dot, h.not_dot_dot) in
    ground (arith, plain, names_pass ns hs)

no_nul : (p : Text) → (any (λ c. c == 0) p ≡ false) ↔ All (λ c. c ≢ 0) p
no_nul [] = ground arith
no_nul (c ∷ p) = ground (arith, no_nul p)

-- A path of at most 512 bytes and no NUL byte, made of one or more names by putting slashes between
-- them.
pub record IsSafePath (p : Text) : Type 0 where
  pub names : List Text
  pub some_name : names ≢ []
  pub are_names : All IsName names
  pub joined : p ≡ join names
  pub short : length p ≤ max_fix_file_path_len
  pub no_nul_byte : All (λ c. c ≢ 0) p

not_absolute : (n : Text) (ns : List Text) → IsName n → has_prefix (join (n ∷ ns)) slash ≡ false
unfolding has_prefix
not_absolute [] ns h = absurd (h.not_empty refl)
not_absolute (c ∷ n) [] h = ground (arith, h.no_slash.0)
not_absolute (c ∷ n) (m ∷ ns) h = ground (arith, h.no_slash.0)

join-ne-nil : (n : Text) (ns : List Text) → IsName n → join (n ∷ ns) ≢ []
join-ne-nil [] ns h = absurd (h.not_empty refl)
join-ne-nil (c ∷ n) [] h = ground arith
join-ne-nil (c ∷ n) (m ∷ ns) h = ground arith

valid_fix_file_path-IsSafePath : (p : Text) → valid_fix_file_path p ≡ true → IsSafePath p
unfolding valid_fix_file_path
valid_fix_file_path-IsSafePath p h =
    let facts : (ltb max_fix_file_path_len (length p) ≡ false)
        × (any (λ c. c == 0) p ≡ false)
        × (all is_plain_segment (split b'/' p) ≡ true) =
      ground arith in
    record {
      names = split b'/' p;
      some_name = split-ne-nil p;
      are_names = segments-IsName (split b'/' p) (split-NoSlash p) facts.2;
      joined = sym (join-split p);
      short = ground (arith, facts.0);
      no_nul_byte = (no_nul p).0 facts.1;
    }

join-valid_fix_file_path :
    (p : Text) (names : List Text)
    → names ≢ []
    → All IsName names
    → p ≡ join names
    → length p ≤ max_fix_file_path_len
    → All (λ c. c ≢ 0) p
    → valid_fix_file_path p ≡ true
unfolding valid_fix_file_path
join-valid_fix_file_path p [] some hs e short nul = absurd (some refl)
join-valid_fix_file_path p (n ∷ ns) some (h, hs) e short nul =
    let parts : split b'/' p ≡ n ∷ ns =
      ap (split b'/') e ∙ split-join n ns (All-map _ _ (λ m k. k.no_slash) (n ∷ ns) (h, hs)) in
    let relative : has_prefix p slash ≡ false =
      ap (λ t. has_prefix t slash) e ∙ not_absolute n ns h in
    let plain : all is_plain_segment (split b'/' p) ≡ true =
      ap (all is_plain_segment) parts ∙ names_pass (n ∷ ns) (h, hs) in
    let filled : p ≢ [] = λ q. join-ne-nil n ns h (sym e ∙ q) in
    ground (arith, text_eq_iff p [], filled, relative, plain, (no_nul p).1 nul)

-- validFixFilePath accepts exactly the safe paths: it lets through no absolute path, no `.` or `..`
-- segment and no empty one, and refuses no path that is made of names.
pub valid_fix_file_path_iff : (p : Text) → (valid_fix_file_path p ≡ true) ↔ IsSafePath p
valid_fix_file_path_iff p = (
  valid_fix_file_path-IsSafePath p,
  λ s. join-valid_fix_file_path p s.names s.some_name s.are_names s.joined s.short s.no_nul_byte,
)
