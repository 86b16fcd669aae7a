-- ===== src/SecurityPolicy/Targets/Members.antt =====
-- Which pods a policy targets.
use aotanami.Scanner.Pod.{Pod}
use aotanami.Prelude.{true, Elem, List, [], ◌≢◌, ◌≡◌, Text, Option}
use aotanami.SecurityPolicy.Targets.{Pod, PodApi}
use aotanami.SecurityPolicy.Model.{SecurityPolicy, err, Attempt, ok, PolicyMatch}

value_or : {A : Type 0} → A → Attempt A → A
value_or a (ok b) = b
value_or a (err e) = a

module _ {Selector : Type 0} (api : PodApi Selector) where
  -- The pod is listed in the namespace, and runs.
  pub record IsListed (selector : Option Selector) (pod : Pod) (ns : Text) : Type 0 where
    pub items : List Pod
    pub listed : api.list_pods ns selector ≡ ok items
    pub among : Elem pod items
    pub running : pod.is_running ≡ true

  -- The namespace is one that the policy names; or it names none, and the namespace exists and is not
  -- excluded.
  pub data IsMatched (match : PolicyMatch) (ns : Text) : Type 0 where
    named : match.namespaces ≢ [] → Elem ns match.namespaces → IsMatched match ns
    unnamed :
        (existing : List Text)
        → match.namespaces ≡ []
        → api.list_namespaces ≡ ok existing
        → Elem ns existing
        → ¬ Elem ns match.exclude_namespaces
        → IsMatched match ns
