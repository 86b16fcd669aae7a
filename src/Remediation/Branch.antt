-- ===== src/Remediation/Branch.antt =====
-- internal/gitops/engine.go: the names that a remediation's pull request gets. Text is in UTF-8.
use aotanami.Prelude.{
  ◌+◌, ◌==◌, ◌||◌, All-take, ◌&&◌, [], none, ◌≡◌, length-take, leb, some, if◌then◌else◌, ◌∷◌, take,
  ◌⊎◌, length, ◌++◌, codes, All, ◌≤◌, Option, arith, Text, ℕ,
}

-- The byte that sanitizeBranchName keeps for a byte, if it keeps one.
pub clean_byte : ℕ → Option ℕ
clean_byte c =
    if (leb b'a' c && leb c b'z') || (leb b'0' c && leb c b'9') || c == b'-'
    then some c
    else if leb b'A' c && leb c b'Z'
    then some (c + 32)
    else if c == b' ' || c == b'_'
    then some b'-'
    else none

abbrev keep_byte : Option ℕ → Text → Text
keep_byte none s = s
keep_byte (some c) s = c ∷ s

-- The loop of sanitizeBranchName.
pub clean : Text → Text
unfolding clean_byte
clean [] = []
clean (c ∷ s) = keep_byte (clean_byte c) (clean s)

abbrev or_untitled : Text → Text
or_untitled [] = codes "untitled"
or_untitled (c ∷ s) = c ∷ s

-- sanitizeBranchName
unfoldable pub sanitize_branch_name : Text → Text
unfolding clean
sanitize_branch_name s = or_untitled (take 40 (clean s))

-- BranchName
unfoldable pub branch_name : Text → Text → Text → Text
unfolding sanitize_branch_name
branch_name resource namespace finding = take 200 (
    codes "zelyo-operator/fix/"
    ++ namespace
    ++ codes "-"
    ++ resource
    ++ codes "-"
    ++ sanitize_branch_name finding)

abbrev shield : Text
shield = 240 ∷ 159 ∷ 155 ∷ 161 ∷ 239 ∷ 184 ∷ 143 ∷ []

-- PRTitle
unfoldable pub pr_title : Text → Text → Text → Text
pr_title resource namespace scanner =
    shield
    ++ codes " [Zelyo Operator] Fix "
    ++ scanner
    ++ codes " findings in "
    ++ namespace
    ++ codes "/"
    ++ resource

-- The bytes that sanitizeBranchName leaves: a-z, 0-9 and the dash.
abbrev pub IsBranchByte : ℕ → Type 0
IsBranchByte c = ((b'a' ≤ c) × (c ≤ b'z')) ⊎ ((b'0' ≤ c) × (c ≤ b'9')) ⊎ (c ≡ b'-')

abbrev KeptByte : Option ℕ → Type 0
KeptByte none = Unit
KeptByte (some c) = IsBranchByte c

clean_byte-KeptByte : (c : ℕ) → KeptByte (clean_byte c)
unfolding clean_byte
clean_byte-KeptByte c = ground arith

keep_byte-IsBranchByte :
    (o : Option ℕ) (s : Text) → KeptByte o → All IsBranchByte s → All IsBranchByte (keep_byte o s)
keep_byte-IsBranchByte none s h hs = hs
keep_byte-IsBranchByte (some c) s h hs = (h, hs)

clean-IsBranchByte : (s : Text) → All IsBranchByte (clean s)
unfolding clean
clean-IsBranchByte [] = tt
clean-IsBranchByte (c ∷ s) =
    keep_byte-IsBranchByte (clean_byte c) (clean s) (clean_byte-KeptByte c) (clean-IsBranchByte s)

-- Whatever text a finding has, its part of the branch name has between 1 and 40 bytes, each of
-- them a letter a-z, a digit or a dash.
pub sanitize_branch_name_is_clean :
    (s : Text)
    → (1 ≤ length (sanitize_branch_name s))
      × (length (sanitize_branch_name s) ≤ 40)
      × All IsBranchByte (sanitize_branch_name s)
unfolding sanitize_branch_name
sanitize_branch_name_is_clean s =
    or_untitled_is_clean (take 40 (clean s)) (omega (arith, length-take 40 (clean s)))
      (All-take IsBranchByte 40 (clean s) (clean-IsBranchByte s))
  where
    or_untitled_is_clean :
        (t : Text)
        → length t ≤ 40
        → All IsBranchByte t
        → (1 ≤ length (or_untitled t))
          × (length (or_untitled t) ≤ 40)
          × All IsBranchByte (or_untitled t)
    or_untitled_is_clean [] le h = ground arith
    or_untitled_is_clean (c ∷ t) le h = (omega arith, le, h)

-- BranchName is bounded.
pub branch_name-length :
    (resource namespace finding : Text) → length (branch_name resource namespace finding) ≤ 200
unfolding branch_name
branch_name-length resource namespace finding = omega (
  arith,
  length-take 200 (
      codes "zelyo-operator/fix/"
      ++ namespace
      ++ codes "-"
      ++ resource
      ++ codes "-"
      ++ sanitize_branch_name finding),
)
