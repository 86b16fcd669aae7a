-- ===== src/Correlator.antt =====
-- internal/correlator/engine.go. A time is a number of nanoseconds, 0 for Go's zero time; an
-- operation is given the time at which it runs, as all its readings of the clock. The map of
-- incidents is a list in the order in which `range` meets them. An event is not changed after it
-- is ingested, so a pointer to it is its value.
pub mod Live
pub mod Unique
pub mod Identity
pub mod Severity
pub mod Window
pub mod Grouping
mod Tests
use aotanami.Prelude.{
  All-filter_of_All, All, ℕ, suc, ◌+◌, ◌*◌, ◌≡◌, Bool, true, false, not, ◌&&◌, Option, none, some,
  List, [], ◌∷◌, ◌++◌, Text, codes, text_eq, ltb, leb, ◌==◌, if◌then◌else◌, length, filter,
}

-- EventType is one of six strings.
pub data EventType : Type 0 where
  security_violation pod_crash anomaly deployment config_change network_anomaly : EventType

pub record Event : Type 0 where
  pub type : EventType
  pub source : Text
  pub severity : Text
  pub security_policy : Text
  pub security_policy_namespace : Text
  pub namespace : Text
  pub resource : Text
  pub resource_kind : Text
  pub message : Text
  pub timestamp : ℕ

-- The id "INC-%06d" is its number. The title "Correlated incident on %s/%s" is a function of the
-- namespace and the resource, which never change.
pub record Incident : Type 0 where
  pub id : ℕ
  pub severity : Text
  pub events : List Event
  pub namespace : Text
  pub resource : Text
  pub created_at : ℕ
  pub updated_at : ℕ
  pub resolved : Bool

pub record Engine : Type 0 where
  pub events : List Event
  pub incidents : List Incident
  pub window : ℕ
  pub incident_seq : ℕ

abbrev pub five_minutes : ℕ
five_minutes = 300 * 1000000000

-- NewEngine
unfoldable pub new_engine : ℕ → Engine
new_engine window = record {
  events = [];
  incidents = [];
  window = if window == 0 then five_minutes else window;
  incident_seq = 0;
}

-- severityOrder
unfoldable pub severity_order : Text → ℕ
severity_order s =
    if text_eq s (codes "critical")
    then 5
    else if text_eq s (codes "high")
    then 4
    else if text_eq s (codes "medium")
    then 3
    else if text_eq s (codes "low")
    then 2
    else 1

-- The loop of highestSeverity.
highest_from : Text → List Event → Text
highest_from highest [] = highest
highest_from highest (ev ∷ evs) =
    highest_from
      (if ltb (severity_order highest) (severity_order ev.severity) then ev.severity else highest)
      evs

-- highestSeverity
pub highest_severity : List Event → Text
unfolding highest_from
highest_severity evs = highest_from (codes "info") evs

-- correlates: the same namespace and resource, and `time.Since(updated) < window`.
pub correlates : ℕ → ℕ → Event → Incident → Bool
correlates now window event incident =
    text_eq event.namespace incident.namespace
    && text_eq event.resource incident.resource
    && ltb now (incident.updated_at + window)

-- The test of findRelated on one event: `ts >= now - window`, and the same place.
pub is_related : ℕ → ℕ → Event → Event → Bool
is_related now window event ev =
    leb now (ev.timestamp + window)
    && text_eq ev.namespace event.namespace
    && text_eq ev.resource event.resource

-- findRelated
pub find_related : ℕ → ℕ → List Event → Event → List Event
unfolding is_related
find_related now window events event = filter (is_related now window event) events

-- pruneOldEvents: `ts > now - 10 * window`.
pub prune_old_events : ℕ → ℕ → List Event → List Event
prune_old_events now window = filter (λ ev. ltb now (ev.timestamp + window * 10))

-- The body of the loop over the incidents, at the one that correlates.
pub absorb : ℕ → Event → Incident → Incident
absorb now event incident = record incident {
  events = incident.events ++ event ∷ [];
  updated_at = now;
  severity =
      if ltb (severity_order incident.severity) (severity_order event.severity)
      then event.severity
      else incident.severity;
}

-- The loop over the incidents, up to its `break`: the incidents, and the one that was extended.
pub attach : ℕ → ℕ → Event → List Incident → List Incident × Option Incident
unfolding correlates absorb
attach now window event [] = ([], none)
attach now window event (i ∷ is) =
    let (rest, found) = attach now window event is in
    if not i.resolved && correlates now window event i
    then (absorb now event i ∷ is, some (absorb now event i))
    else (i ∷ rest, found)

-- The incident that Ingest makes of related events.
pub form : ℕ → ℕ → Event → List Event → Incident
unfolding highest_severity
form now id event related = record {
  id = id;
  severity = highest_severity related;
  events = related;
  namespace = event.namespace;
  resource = event.resource;
  created_at = now;
  updated_at = now;
  resolved = false;
}

-- What Ingest does outside the lock: the incident given to the OnIncident callback and returned,
-- and the number of events of EmitCorrelationGrouped where a new incident forms.
pub record Report : Type 0 where
  pub notified : Option Incident
  pub grouped : Option ℕ

-- Ingest after its loop: the engine and the report, by what the loop found.
pub conclude : ℕ → Event → List Event → List Incident → Engine → Option Incident → Engine × Report
unfolding find_related form
conclude now event kept extended e (some i) =
    (record e { events = kept; incidents = extended }, record { notified = some i; grouped = none })
conclude now event kept extended e none =
    let related = find_related now e.window kept event in
    let formed = form now (suc e.incident_seq) event related in
    if leb 2 (length related)
    then (
      record e {
        events = kept;
        incidents = e.incidents ++ formed ∷ [];
        incident_seq = suc e.incident_seq;
      },
      record { notified = some formed; grouped = some (length related) },
    )
    else (record e { events = kept }, record { notified = none; grouped = none })

-- Ingest with the event's time set.
pub ingest_stamped : ℕ → Event → Engine → Engine × Report
unfolding attach prune_old_events conclude
ingest_stamped now event e =
    let kept = prune_old_events now e.window (e.events ++ event ∷ []) in
    let (extended, found) = attach now e.window event e.incidents in
    conclude now event kept extended e found

-- An event without a time gets the current one.
pub stamp : ℕ → Event → Event
stamp now event = if event.timestamp == 0 then record event { timestamp = now } else event

-- Ingest: an event without a time gets the current one.
unfoldable pub ingest : ℕ → Event → Engine → Engine × Report
unfolding ingest_stamped stamp
ingest now event e = ingest_stamped now (stamp now event) e

-- ResolveIncident
abbrev pub resolve : ℕ → ℕ → Incident → Incident
resolve now id i = if i.id == id then record i { resolved = true; updated_at = now } else i

pub resolve_all : ℕ → ℕ → List Incident → List Incident
resolve_all now id [] = []
resolve_all now id (i ∷ is) = resolve now id i ∷ resolve_all now id is

unfoldable pub resolve_incident : ℕ → ℕ → Engine → Engine
unfolding resolve_all
resolve_incident now id e = record e { incidents = resolve_all now id e.incidents }

-- GetOpenIncidents
unfoldable pub get_open_incidents : Engine → List Incident
get_open_incidents e = filter (λ i. not i.resolved) e.incidents

pub get_open_incidents-All :
    (P : Incident → Type 0) (e : Engine) → All P e.incidents → All P (get_open_incidents e)
unfolding get_open_incidents
get_open_incidents-All P e h = All-filter_of_All P (λ i. not i.resolved) e.incidents h
