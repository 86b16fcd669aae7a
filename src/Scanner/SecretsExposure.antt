-- ===== src/Scanner/SecretsExposure.antt =====
-- internal/scanner/secrets_exposure.go: SecretsExposureScanner.
use aotanami.Remediation.Model.{Finding}
use aotanami.Scanner.Pod.{
  all_containers, critical, EnvVarSource, low, medium, EnvVar, pod_finding, Pod, Container,
}
use aotanami.Prelude.{
  ◌&&◌, text_eq, to_lower, none, when, not, false, contains, ◌++◌, some, true, gather,
  if◌then◌else◌, [], ◌∷◌, any, List, codes, Bool, Option, Text, utf8, quote,
}

abbrev pub secrets_exposure : Text
secrets_exposure = codes "secrets-exposure"

abbrev pub injects_secret : Container → Text → Pod → Finding
injects_secret container secret pod =
    pod_finding secrets_exposure medium
      (utf8 "Container "
        ++ quote container.name
        ++ utf8 " injects entire Secret "
        ++ quote secret
        ++ utf8 " as env vars")
      (utf8
        "Using envFrom with a secretRef exposes all keys as environment variables. Environment variables can be leaked via /proc, core dumps, or logs.")
      (utf8
        "Mount the Secret as a volume instead. Volume-mounted secrets can be auto-rotated and are less likely to leak.")
      pod

abbrev pub hardcodes_secret : Container → EnvVar → Pod → Finding
hardcodes_secret container env pod =
    pod_finding secrets_exposure critical
      (utf8 "Container "
        ++ quote container.name
        ++ utf8 " has hardcoded secret in env var "
        ++ quote env.name)
      (utf8 "Environment variable "
        ++ quote env.name
        ++ utf8
            " appears to contain a secret but is set as a plain-text value. This is visible in the pod spec and etcd.")
      (utf8 "Use a Kubernetes Secret with secretKeyRef, or mount the Secret as a file volume.") pod

abbrev pub passes_secret : Container → EnvVar → Pod → Finding
passes_secret container env pod =
    pod_finding secrets_exposure low
      (utf8 "Container "
        ++ quote container.name
        ++ utf8 " passes secret via env var "
        ++ quote env.name
        ++ utf8 " (secretKeyRef)")
      (utf8
        "Using secretKeyRef is better than plain text, but environment variables can still be leaked. Volume-mounted secrets are the best practice.")
      (utf8
        "Consider mounting the Secret as a file volume instead of using environment variables for enhanced security.")
      pod

-- sensitiveKeywords
abbrev sensitive_keywords : List Text
sensitive_keywords =
    codes "password"
    ∷ codes "passwd"
    ∷ codes "secret"
    ∷ codes "token"
    ∷ codes "api_key"
    ∷ codes "apikey"
    ∷ codes "access_key"
    ∷ codes "private_key"
    ∷ codes "credentials"
    ∷ codes "auth"
    ∷ []

-- The inner loop of Scan.
unfoldable pub is_sensitive : Text → Bool
is_sensitive name = any (contains (to_lower name)) sensitive_keywords

abbrev pub env_from_findings : Pod → Container → Option Text → List Finding
env_from_findings pod c none = []
env_from_findings pod c (some secret) = injects_secret c secret pod ∷ []

abbrev pub is_secret_key_ref : Option EnvVarSource → Bool
is_secret_key_ref none = false
is_secret_key_ref (some source) = source.secret_key_ref

abbrev pub is_none : Option EnvVarSource → Bool
is_none none = true
is_none (some source) = false

-- The body of the loop over the variables.
abbrev pub env_findings : Pod → Container → EnvVar → List Finding
env_findings pod c env =
    if not (is_sensitive env.name)
    then []
    else when (not (text_eq env.value []) && is_none env.value_from) (hardcodes_secret c env pod)
      ++ when (is_secret_key_ref env.value_from) (passes_secret c env pod)

-- The body of the loop over the containers.
abbrev pub check_container : Pod → Container → List Finding
check_container pod c =
    gather (env_from_findings pod c) c.env_from ++ gather (env_findings pod c) c.env

abbrev pub checks : Pod → List Finding
checks pod = gather (check_container pod) (all_containers pod)

-- Scan
unfoldable pub scan : List Pod → List Finding
unfolding is_sensitive
scan pods = gather checks pods
