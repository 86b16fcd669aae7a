-- ===== src/Correlator/Tests.antt =====
-- The correlator at concrete inputs, with a window of 100.
use aotanami.Prelude.{
  arith, ◌≤◌, ◌≡◌, refl, ◌↔◌, [], ◌∷◌, All, length, codes, some, text_eq, false, inl,
}
use aotanami.Correlator.{
  severity_order, Event, Incident, Engine, security_violation, pod_crash, ingest, find_related,
  stamp, attach, absorb, new_engine,
}
use aotanami.Correlator.Live.{is_live}
use aotanami.Correlator.Unique.{
  System, start, Reach, here, next, ingested, joined_incident_is_unique,
}
use aotanami.Correlator.Identity.{Distinct, incident_ids-Distinct}
use aotanami.Correlator.Severity.{IsFaithful, incidents-IsFaithful}
use aotanami.Correlator.Window.{HasFormed, ingest_forms_iff}

abbrev violation : Event
violation = record {
  type = security_violation;
  source = codes "securitypolicy/base";
  severity = codes "medium";
  security_policy = codes "base";
  security_policy_namespace = codes "prod";
  namespace = codes "prod";
  resource = codes "web";
  resource_kind = codes "Pod";
  message = codes "runs as root";
  timestamp = 10;
}

abbrev crash : Event
crash = record violation { type = pod_crash; severity = codes "critical"; timestamp = 0 }

abbrev crash_at_20 : Event
crash_at_20 = record crash { timestamp = 20 }

abbrev first_engine : Engine
first_engine = record { events = violation ∷ []; incidents = []; window = 100; incident_seq = 0 }

abbrev incident : Incident
incident = record {
  id = 1;
  severity = codes "critical";
  events = violation ∷ crash_at_20 ∷ [];
  namespace = codes "prod";
  resource = codes "web";
  created_at = 20;
  updated_at = 20;
  resolved = false;
}

abbrev second_engine : Engine
second_engine = record first_engine {
  events = violation ∷ crash_at_20 ∷ [];
  incidents = incident ∷ [];
  incident_seq = 1;
}

second_ingest :
    ingest 20 crash first_engine
    ≡ (second_engine, record { notified = some incident; grouped = some 2 })
unfolding ingest text_eq severity_order
second_ingest = refl

abbrev after_two : System
after_two = record { engine = second_engine; now = 20 }

after_two-Reach : Reach (start 100) after_two
unfolding ingest text_eq new_engine severity_order
after_two-Reach =
    next (next here (ingested 10 violation (omega arith))) (ingested 20 crash (omega arith))

joined_incident_is_unique_example :
    (attach 30 100 crash_at_20 (incident ∷ [])).1 ≡ some (absorb 30 crash_at_20 incident)
unfolding attach text_eq
joined_incident_is_unique_example =
    joined_incident_is_unique 100 30 crash_at_20 incident after_two-Reach (omega arith) (inl refl)
      refl

incident_ids-Distinct_example : Distinct (1 ∷ [])
incident_ids-Distinct_example = incident_ids-Distinct 100 after_two-Reach

incidents-IsFaithful_example : All IsFaithful (incident ∷ [])
incidents-IsFaithful_example = incidents-IsFaithful 100 after_two-Reach

ingest_forms_iff_example :
    let event' = stamp 20 crash in
    let related = find_related 20 100 (violation ∷ event' ∷ []) event' in
    HasFormed first_engine event' related (ingest 20 crash first_engine)
    ↔ (All (λ i. is_live 20 100 event' i ≡ false) [] × (2 ≤ length related))
ingest_forms_iff_example = ingest_forms_iff 20 crash first_engine (omega arith)
