-- ===== src/SecurityPolicy/Scan/Errors.antt =====
-- The built-in scanners do not fail.
use aotanami.Scanner.Registry.Reports.{built_in-ReportsOn, ReportsOn}
use aotanami.Scanner.Registry.{failed, found, lookup, ScanResult, Scanner}
use aotanami.Scanner.Registry.Defaults.{lookup-Elem, built_in}
use aotanami.Scanner.Pod.{Pod}
use aotanami.Prelude.{none, All-Elem, some, refl, ◌∷◌, gather, Option, [], Text, ◌≡◌, List}
use aotanami.SecurityPolicy.Scan.{
  complaint, errors_of, Scanner, rule_errors, Pod, run_policy_scanners,
}
use aotanami.SecurityPolicy.Model.{SecurityRule, SecurityPolicy}

sound_errors :
    (pods : List Pod) (rule_type : Text) (s : Scanner) (r : ScanResult)
    → ReportsOn pods rule_type r
    → complaint s r ≡ []
sound_errors pods rule_type s (found fs) h = refl
sound_errors pods rule_type s (failed e) h = absurd h

module _ (policy : SecurityPolicy) (pods : List Pod) (rule : SecurityRule) where
  errors_of-built_in :
      (o : Option Scanner)
      → lookup rule.type built_in ≡ o
      → errors_of built_in policy pods rule o ≡ []
  errors_of-built_in none e = refl
  errors_of-built_in (some s) e =
      let (among, _) = lookup-Elem rule.type built_in s e in
      sound_errors pods s.rule_type s (s.scan pods rule.params) (
        All-Elem (λ t. ReportsOn pods t.rule_type (t.scan pods rule.params)) s built_in
          (built_in-ReportsOn pods rule.params) among)

  rule_errors-built_in : rule_errors built_in policy pods rule ≡ []
  unfolding rule_errors
  rule_errors-built_in = errors_of-built_in (lookup rule.type built_in) refl

gather_nothing :
    {A B : Type 0} (f : A → List B) → ((x : A) → f x ≡ []) → (xs : List A) → gather f xs ≡ []
gather_nothing f h [] = refl
gather_nothing f h (x ∷ xs) = rw (h x, gather_nothing f h xs) refl

-- No built-in scanner fails.
pub scan_errors-built_in :
    (policy : SecurityPolicy) (pods : List Pod)
    → (run_policy_scanners built_in policy pods).scan_errors ≡ []
unfolding run_policy_scanners
scan_errors-built_in policy pods =
    gather_nothing (rule_errors built_in policy pods) (rule_errors-built_in policy pods)
      policy.spec.rules
