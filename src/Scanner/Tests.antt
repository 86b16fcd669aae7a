-- ===== src/Scanner/Tests.antt =====
-- A pod in the network of its host.
use aotanami.Scanner.Registry.Defaults.{built_in}
use aotanami.Scanner.Registry.Reports.{built_in-ReportsOn, ReportsOn}
use aotanami.Prelude.{refl, none, false, ◌≡◌, some, ◌∷◌, true, map, [], has_prefix, All, codes}
use aotanami.Scanner.Pod.{medium, critical, Pod}
use aotanami.Scanner.PodSecurity

abbrev router : Pod
router = record {
  namespace = codes "edge";
  name = codes "router";
  labels = [];
  is_running = true;
  init_containers = [];
  containers = [];
  volumes = record { name = codes "etc"; host_path = some (codes "/etc/ssl") } ∷ [];
  host_network = true;
  host_pid = false;
  host_ipc = false;
  share_process_namespace = some true;
  automount_service_account_token = none;
  security_context = none;
  service_account_name = [];
  deprecated_service_account = [];
}

built_in-ReportsOn_example :
    All (λ s. ReportsOn (router ∷ []) s.rule_type (s.scan (router ∷ []) [])) built_in
built_in-ReportsOn_example = built_in-ReportsOn (router ∷ []) []

-- The severities of the findings of PodSecurityScanner.
severities :
    map (λ f. f.severity) (PodSecurity.scan (router ∷ [])) ≡ critical ∷ critical ∷ medium ∷ []
unfolding PodSecurity.scan has_prefix
severities = refl
