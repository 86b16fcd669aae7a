-- ===== src/SecurityPolicy/Targets.antt =====
-- resolveTargetPods: the running pods of the namespaces that the policy matches.
pub mod Members
use aotanami.Scanner.Pod.{Pod}
use aotanami.Prelude.{
  text_eq, any, not, filter, [], none, quote, ◌++◌, length, codes, ltb, ◌∷◌, if◌then◌else◌, some,
  Text, List, Option,
}
use aotanami.SecurityPolicy.Model.{
  ◌>>=◌, wrap, ok, LabelSelector, Attempt, PolicyMatch, SecurityPolicy,
}

-- The calls of the Kubernetes API and of its label selectors.
pub record PodApi (Selector : Type 0) : Type 0 where
  pub list_namespaces : Attempt (List Text)
  pub label_selector_as_selector : LabelSelector → Attempt Selector
  pub list_pods : Text → Option Selector → Attempt (List Pod)

module _ {Selector : Type 0} (api : PodApi Selector) where
  -- The namespaces: those that are named, or all but the excluded ones.
  unfoldable pub target_namespaces : PolicyMatch → Attempt (List Text)
  target_namespaces match =
      if ltb 0 (length match.namespaces)
      then ok match.namespaces
      else wrap (codes "listing namespaces") api.list_namespaces >>= λ all.
          ok (filter (λ ns. not (any (text_eq ns) match.exclude_namespaces)) all)

  abbrev pub selector_of : Option LabelSelector → Attempt (Option Selector)
  selector_of none = ok none
  selector_of (some l) =
      wrap (codes "parsing label selector") (api.label_selector_as_selector l) >>= λ s. ok (some s)

  -- The loop over the namespaces.
  unfoldable pub pods_of : Option Selector → List Text → List Pod → Attempt (List Pod)
  pods_of selector [] all_pods = ok all_pods
  pods_of selector (ns ∷ nss) all_pods =
      wrap (codes "listing pods in namespace " ++ quote ns) (api.list_pods ns selector) >>= λ items.
      pods_of selector nss (all_pods ++ filter (λ pod. pod.is_running) items)

  -- resolveTargetPods
  unfoldable pub resolve_target_pods : SecurityPolicy → Attempt (List Pod)
  unfolding target_namespaces pods_of
  resolve_target_pods policy = do
    namespaces ← target_namespaces policy.spec.match
    selector ← selector_of policy.spec.match.label_selector
    pods_of selector namespaces []
