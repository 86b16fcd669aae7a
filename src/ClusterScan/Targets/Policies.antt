-- ===== src/ClusterScan/Targets/Policies.antt =====
-- A cluster scan and a security policy resolve their targets alike.
use aotanami.Scanner.Pod.{Pod}
use aotanami.SecurityPolicy.Targets.{selector_of, PodApi}
use aotanami.ClusterScan.Model.{ClusterScan, ScanScope}
use aotanami.Prelude.{filter, quote, ◌++◌, codes, sym, ◌∷◌, subst, refl, [], ◌≡◌, List, none, Text}
use aotanami.SecurityPolicy.Model.{wrap, err, ◌>>=◌, SecurityPolicy, PolicyMatch, Attempt, ok}
use aotanami.SecurityPolicy.Targets
use aotanami.ClusterScan.Targets.{
  wrap, Pod, target_namespaces, pods_of, resolve_target_pods, ScanScope, ScopeApi,
}

-- The calls of a policy's API without a label selector.
abbrev pub without_selector : {Selector : Type 0} → PodApi Selector → ScopeApi
without_selector api = record {
  list_namespaces = api.list_namespaces;
  list_pods = λ ns. api.list_pods ns none;
}

-- The match that has the scope's namespaces, and any resource kinds.
abbrev pub match_of : ScanScope → List Text → PolicyMatch
match_of scope kinds = record {
  namespaces = scope.namespaces;
  exclude_namespaces = scope.exclude_namespaces;
  label_selector = none;
  resource_kinds = kinds;
}

-- Chains that go on alike.
>>=-same :
    {A B : Type 0} (r : Attempt A) (f g : A → Attempt B)
    → ((a : A) → f a ≡ g a)
    → (r >>= f) ≡ (r >>= g)
>>=-same (ok a) f g h = h a
>>=-same (err e) f g h = refl

module _ {Selector : Type 0} (api : PodApi Selector) where
  pods_of-same :
      (nss : List Text) (acc : List Pod)
      → pods_of (without_selector api) nss acc ≡ Targets.pods_of api none nss acc
  unfolding pods_of Targets.pods_of
  pods_of-same [] acc = refl
  pods_of-same (ns ∷ nss) acc =
      >>=-same (wrap (codes "listing pods in namespace " ++ quote ns) (api.list_pods ns none)) _ _
        (λ items. pods_of-same nss (acc ++ filter (λ pod. pod.is_running) items))

-- A scan targets the pods, or fails with the error, of any policy that has its namespaces and excluded
-- namespaces and no label selector.
pub resolve_target_pods_same :
    {Selector : Type 0} (api : PodApi Selector) (scan : ClusterScan) (policy : SecurityPolicy)
    → policy.spec.match ≡ match_of scan.spec.scope policy.spec.match.resource_kinds
    → resolve_target_pods (without_selector api) scan ≡ Targets.resolve_target_pods api policy
unfolding resolve_target_pods Targets.resolve_target_pods target_namespaces
    Targets.target_namespaces
resolve_target_pods_same api scan policy h =
    subst
      (λ m. resolve_target_pods (without_selector api) scan ≡ (
        Targets.target_namespaces api m >>= λ nss.
        selector_of api m.label_selector >>= λ selector. Targets.pods_of api selector nss []))
      (sym h)
      (>>=-same
        (Targets.target_namespaces api (match_of scan.spec.scope policy.spec.match.resource_kinds))
        _ _ (λ nss. pods_of-same api nss []))
