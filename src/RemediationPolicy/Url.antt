-- ===== src/RemediationPolicy/Url.antt =====
-- What parseRepoURL finds in a URL.
use aotanami.RemediationPolicy.{
  owner_of, repo_of, strip_git, is_separator, is_owner_separator, back_to, parse_repo_url,
}
use aotanami.Prelude.{
  reverse-reverse, append-nil, sym, append_assoc, reverse-append, refl, ◌∙◌, arith, ap, [], some,
  false, ◌∷◌, true, ◌||◌, ◌≡◌, reverse, ◌++◌, any, Text, Bool, ℕ,
}

any-append : (p : ℕ → Bool) (s t : Text) → any p (s ++ t) ≡ (any p s || any p t)
any-append p [] t = refl
any-append p (c ∷ s) t = ground (arith, any-append p s t)

any-reverse : (p : ℕ → Bool) (s : Text) → any p (reverse s) ≡ any p s
any-reverse p [] = refl
any-reverse p (c ∷ s) =
    ap (any p) (reverse-append (c ∷ []) s)
    ∙ any-append p (reverse s) (c ∷ [])
    ∙ ground (arith, any-reverse p s)

back_to-append :
    (stop : ℕ → Bool) (s : Text) (c : ℕ) (t found : Text)
    → any stop s ≡ false
    → stop c ≡ true
    → back_to stop (s ++ c ∷ t) found ≡ some (reverse s ++ found, t)
unfolding back_to
back_to-append stop [] c t found none_in at_c = rw at_c refl
back_to-append stop (d ∷ s) c t found none_in at_c =
    let not_d : stop d ≡ false = ground (arith, none_in) in
    let rest = back_to-append stop s c t (d ∷ found) (ground (arith, none_in)) at_c in
    rw not_d (
      rest
      ∙ ap (λ f. some (f, t))
          (sym (append_assoc (reverse s) (d ∷ []) found)
            ∙ ap (λ r. r ++ found) (sym (reverse-append (d ∷ []) s))))

-- Behind the last separator stands the name.
back_to-reverse :
    (stop : ℕ → Bool) (t : Text) (c : ℕ) (name : Text)
    → any stop name ≡ false
    → stop c ≡ true
    → back_to stop (reverse (t ++ c ∷ name)) [] ≡ some (name, reverse t)
back_to-reverse stop t c name none_in at_c =
    ap (λ r. back_to stop r []) (backwards t c name)
    ∙ back_to-append stop (reverse name) c (reverse t) [] (any-reverse stop name ∙ none_in) at_c
    ∙ ap (λ n. some (n, reverse t)) (append-nil (reverse (reverse name)) ∙ reverse-reverse name)
  where
    backwards :
        (t : Text) (c : ℕ) (name : Text) → reverse (t ++ c ∷ name) ≡ reverse name ++ c ∷ reverse t
    backwards t c name =
        reverse-append t (c ∷ name)
        ∙ ap (λ r. r ++ reverse t) (reverse-append (c ∷ []) name)
        ∙ append_assoc (reverse name) (c ∷ []) (reverse t)

-- Of a URL that ends in an owner and a name, each behind a separator, parseRepoURL finds both, the
-- name without `.git`: of an HTTPS URL and of an SSH one alike.
pub parse_repo_url-append :
    (before : Text) (c : ℕ) (owner : Text) (d : ℕ) (name : Text)
    → is_owner_separator c ≡ true
    → any is_owner_separator owner ≡ false
    → is_separator d ≡ true
    → any is_separator name ≡ false
    → parse_repo_url ((before ++ c ∷ owner) ++ d ∷ name) ≡ (owner, strip_git name)
unfolding parse_repo_url
parse_repo_url-append before c owner d name at_c in_owner at_d in_name =
    ap repo_of (back_to-reverse is_separator (before ++ c ∷ owner) d name in_name at_d)
    ∙ ap (owner_of (strip_git name))
        (back_to-reverse is_owner_separator before c owner in_owner at_c)
