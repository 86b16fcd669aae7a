-- ===== src/SecurityPolicy/Ingest.antt =====
-- ingestFindingsToCorrelator: every finding becomes an event of the correlator.
pub mod Grouped
use aotanami.Prelude.{[], none, some, suc, ◌++◌, ◌∷◌, Option, codes, List, ℕ}
use aotanami.Remediation.Model.{Finding}
use aotanami.Correlator.{ingest, security_violation, Engine, Event}
use aotanami.SecurityPolicy.Model.{SecurityPolicy}

-- The event of a finding.
abbrev pub event_of : SecurityPolicy → Finding → Event
event_of policy f = record {
  type = security_violation;
  source = codes "securitypolicy/" ++ policy.name;
  severity = f.severity;
  security_policy = policy.name;
  security_policy_namespace = policy.namespace;
  namespace = f.resource_namespace;
  resource = f.resource_name;
  resource_kind = f.resource_kind;
  message = f.title;
  timestamp = 0;
}

-- The loop over the findings; `clock i` is the time at which the i-th one is ingested.
unfoldable pub ingest_all : SecurityPolicy → (ℕ → ℕ) → ℕ → List Finding → Engine → Engine
ingest_all policy clock i [] e = e
ingest_all policy clock i (f ∷ fs) e =
    ingest_all policy clock (suc i) fs (ingest (clock i) (event_of policy f) e).0

-- ingestFindingsToCorrelator; `none` is a controller without a correlator.
abbrev pub ingest_findings : SecurityPolicy → (ℕ → ℕ) → List Finding → Option Engine → Option Engine
ingest_findings policy clock fs none = none
ingest_findings policy clock fs (some e) = some (ingest_all policy clock 0 fs e)
