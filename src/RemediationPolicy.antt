-- ===== src/RemediationPolicy.antt =====
-- internal/controller/remediationpolicy_controller.go: what a reconcile cycle over the open incidents
-- takes from a policy, an incident and a URL; the cycle is in Cycle, and Reconcile in the child of that
-- name. The clock is read once per cycle. The counts are int32 in the code and stay far below 2^31: the
-- list of open pull requests is cut at 1000, and a limit is at least 1.
pub mod Url
pub mod Cycle
pub mod Reconcile
mod Tests
use aotanami.Remediation.Model.{Finding}
use aotanami.Prelude.{
  decimal, decimal_padded, any, ◌&&◌, ◌||◌, ◌++◌, trim_suffix, ◌∷◌, some, none, [], List, codes,
  reverse, ltb, ◌==◌, not, text_eq, length, if◌then◌else◌, Bool, Option, Text, ℕ,
}
use aotanami.Correlator.{
  EventType, security_violation, pod_crash, anomaly, deployment, config_change, network_anomaly,
  Event, Incident,
}

-- The fields of RemediationPolicy that the cycle reads.
pub record Policy : Type 0 where
  pub namespace : Text
  pub target_policies : List Text
  pub severity_filter : Text
  pub max_concurrent_prs : ℕ
  pub dry_run : Bool

-- The fields of GitOpsRepository that the cycle reads.
pub record Repository : Type 0 where
  pub url : Text
  pub paths : List Text

-- severityOrder of securitypolicy_controller.go: `none` for a missing key.
unfoldable pub severity_order : Text → Option ℕ
severity_order s =
    if text_eq s (codes "critical")
    then some 0
    else if text_eq s (codes "high")
    then some 1
    else if text_eq s (codes "medium")
    then some 2
    else if text_eq s (codes "low")
    then some 3
    else if text_eq s (codes "info")
    then some 4
    else none

-- Go's zero value for a missing key.
abbrev or_zero : Option ℕ → ℕ
or_zero none = 0
or_zero (some n) = n

-- The severity threshold of processIncidents.
unfoldable pub min_severity : Policy → ℕ
unfolding severity_order
min_severity policy = or_zero (
    severity_order
      (if text_eq policy.severity_filter [] then codes "high" else policy.severity_filter))

-- The limit of processIncidents.
unfoldable pub max_prs : Policy → ℕ
max_prs policy = if policy.max_concurrent_prs == 0 then 5 else policy.max_concurrent_prs

-- The loops of parseRepoURL, from the end: the text behind the separator, and the text before it
-- in reverse. `none` if there is no separator.
unfoldable pub back_to : (ℕ → Bool) → Text → Text → Option (Text × Text)
back_to stop [] found = none
back_to stop (c ∷ s) found =
    let rest = back_to stop s (c ∷ found) in if stop c then some (found, s) else rest

abbrev pub is_separator : ℕ → Bool
is_separator c = c == b'/' || c == b':'

abbrev pub is_owner_separator : ℕ → Bool
is_owner_separator c = c == b'/' || c == b':' || c == b'@'

abbrev pub strip_git : Text → Text
strip_git s = if ltb 4 (length s) then trim_suffix s (codes ".git") else s

abbrev pub owner_of : Text → Option (Text × Text) → Text × Text
owner_of repo none = ([], [])
owner_of repo (some (owner, before)) = (owner, repo)

abbrev pub repo_of : Option (Text × Text) → Text × Text
repo_of none = ([], [])
repo_of (some (remainder, before)) =
    owner_of (strip_git remainder) (back_to is_owner_separator before [])

-- parseRepoURL
unfoldable pub parse_repo_url : Text → Text × Text
unfolding back_to
parse_repo_url url = repo_of (back_to is_separator (reverse url) [])

-- The test of one event in incidentMatchesTargets. Every target is in the policy's namespace.
unfoldable pub is_targeted : Policy → Event → Bool
is_targeted policy ev =
    not (text_eq ev.security_policy [] || text_eq ev.security_policy_namespace [])
    && text_eq ev.security_policy_namespace policy.namespace
    && any (text_eq ev.security_policy) policy.target_policies

-- incidentMatchesTargets, and the test of the caller for an empty list of targets.
unfoldable pub in_scope : Policy → Incident → Bool
unfolding is_targeted
in_scope policy incident =
    length policy.target_policies == 0 || any (is_targeted policy) incident.events

pub event_type_text : EventType → Text
event_type_text security_violation = codes "security_violation"
event_type_text pod_crash = codes "pod_crash"
event_type_text anomaly = codes "anomaly"
event_type_text deployment = codes "deployment"
event_type_text config_change = codes "config_change"
event_type_text network_anomaly = codes "network_anomaly"

-- The id of an incident as Ingest writes it.
pub incident_id : Incident → Text
incident_id i = codes "INC-" ++ decimal_padded 6 i.id

-- The title of an incident as Ingest writes it.
pub incident_title : Incident → Text
incident_title i = codes "Correlated incident on " ++ i.namespace ++ codes "/" ++ i.resource

-- The finding with the details of the latest event.
abbrev enriched : Finding → List Event → Finding
enriched f [] = f
enriched f (ev ∷ []) = record f {
  resource_kind = ev.resource_kind;
  rule_type = event_type_text ev.type;
  title = if text_eq ev.message [] then f.title else ev.message;
}
enriched f (ev ∷ next ∷ evs) = enriched f (next ∷ evs)

-- incidentToFinding
unfoldable pub incident_to_finding : Incident → Finding
unfolding incident_id incident_title event_type_text
incident_to_finding i =
    enriched
      (record {
        rule_type = [];
        severity = i.severity;
        title = incident_title i;
        description =
            codes "Correlated incident "
            ++ incident_id i
            ++ codes " with "
            ++ decimal (length i.events)
            ++ codes " events";
        resource_kind = [];
        resource_namespace = i.namespace;
        resource_name = i.resource;
        recommendation = [];
      })
      i.events
