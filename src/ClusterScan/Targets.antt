-- ===== src/ClusterScan/Targets.antt =====
-- resolveTargetPods of the ClusterScan controller: the running pods of the namespaces in the scope.
pub mod Policies
use aotanami.Scanner.Pod.{Pod}
use aotanami.ClusterScan.Model.{ClusterScan, ScanScope}
use aotanami.Prelude.{
  text_eq, any, not, quote, ◌++◌, filter, length, codes, [], ◌∷◌, ltb, if◌then◌else◌, List, Text,
}
use aotanami.SecurityPolicy.Model.{Attempt, wrap, ok, ◌>>=◌}

-- The calls of the Kubernetes API.
pub record ScopeApi : Type 0 where
  pub list_namespaces : Attempt (List Text)
  pub list_pods : Text → Attempt (List Pod)

module _ (api : ScopeApi) where
  -- The namespaces: those that are named, or all but the excluded ones.
  pub target_namespaces : ScanScope → Attempt (List Text)
  target_namespaces scope =
      if ltb 0 (length scope.namespaces)
      then ok scope.namespaces
      else wrap (codes "listing namespaces") api.list_namespaces >>= λ all.
          ok (filter (λ ns. not (any (text_eq ns) scope.exclude_namespaces)) all)

  -- The loop over the namespaces.
  pub pods_of : List Text → List Pod → Attempt (List Pod)
  pods_of [] all_pods = ok all_pods
  pods_of (ns ∷ nss) all_pods =
      wrap (codes "listing pods in namespace " ++ quote ns) (api.list_pods ns) >>= λ items.
      pods_of nss (all_pods ++ filter (λ pod. pod.is_running) items)

  -- resolveTargetPods
  unfoldable pub resolve_target_pods : ClusterScan → Attempt (List Pod)
  unfolding target_namespaces pods_of
  resolve_target_pods scan = do
    namespaces ← target_namespaces scan.spec.scope
    pods_of namespaces []
