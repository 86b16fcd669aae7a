-- ===== src/Correlator/Severity.antt =====
-- What an incident says of its events.
use aotanami.Correlator.Live.{is_live_place, is_live}
use aotanami.Prelude.{
  All-filter, length-append, text_eq_iff, ltb, filter, ◌==◌, none, All-map, if◌then◌else◌, inr,
  All-append, refl, inl, codes, some, true, Bool-cases, leb, length, Text, Option, text_eq, ℕ, suc,
  max, ◌≤◌, ◌≡◌, List, [], ◌∷◌, ◌++◌, arith, All,
}
use aotanami.Correlator.{
  is_related, prune_old_events, stamp, absorb, find_related, Event, Incident, Engine, attach,
  conclude, form, ingest, ingest_stamped, resolve_all, resolve_incident, new_engine, severity_order,
  highest_severity, highest_from,
}
use aotanami.Correlator.Unique.{System, start, Step, Reach, ingested, resolved_one, here, next}

-- The rank of the worst event; 1 is that of "info" and of unknown severities.
abbrev pub worst : List Event → ℕ
worst [] = 1
worst (ev ∷ evs) = max (severity_order ev.severity) (worst evs)

worst_pos : (evs : List Event) → 1 ≤ worst evs
worst_pos [] = omega arith
worst_pos (ev ∷ evs) = omega (arith, worst_pos evs)

worst-append : (xs ys : List Event) → worst (xs ++ ys) ≡ max (worst xs) (worst ys)
worst-append [] ys = omega (arith, worst_pos ys)
worst-append (x ∷ xs) ys = omega (arith, worst-append xs ys)

severity_order_pos : (s : Text) → 1 ≤ severity_order s
unfolding severity_order
severity_order_pos s = ground arith

info_order : severity_order (codes "info") ≡ 1
unfolding severity_order text_eq
info_order = refl

highest_from-worst :
    (h : Text) (evs : List Event)
    → severity_order (highest_from h evs) ≡ max (severity_order h) (worst evs)
unfolding highest_from
highest_from-worst h [] = ground (arith, severity_order_pos h)
highest_from-worst h (ev ∷ evs) = ground (
  arith,
  severity_order_pos h,
  highest_from-worst
      (if ltb (severity_order h) (severity_order ev.severity) then ev.severity else h) evs,
)

abbrev pub InPlace : Text → Text → Event → Type 0
InPlace namespace resource ev = (ev.namespace ≡ namespace) × (ev.resource ≡ resource)

-- At least two events, all of the incident's place, and the severity of the worst.
pub record IsFaithful (i : Incident) : Type 0 where
  pub several : 2 ≤ length i.events
  pub in_place : All (InPlace i.namespace i.resource) i.events
  pub ranked : severity_order i.severity ≡ worst i.events

absorb-IsFaithful :
    (now window : ℕ) (event : Event) (i : Incident)
    → is_live now window event i ≡ true
    → IsFaithful i
    → IsFaithful (absorb now event i)
unfolding absorb
absorb-IsFaithful now window event i live f = record {
  several = omega (arith, f.several, length-append i.events (event ∷ []));
  in_place =
      All-append (InPlace i.namespace i.resource) i.events (event ∷ []) f.in_place
        (is_live_place now window event i live, tt);
  ranked =
      ground
        (arith, worst-append i.events (event ∷ []), f.ranked, severity_order_pos event.severity);
}

attach-IsFaithful :
    (now window : ℕ) (event : Event) (is : List Incident)
    → All IsFaithful is
    → All IsFaithful (attach now window event is).0
unfolding attach
attach-IsFaithful now window event [] h = tt
attach-IsFaithful now window event (i ∷ is) (h, hs) =
    elim (Bool-cases (is_live now window event i)) [
      | inl e ↦ rw e (absorb-IsFaithful now window event i e h, hs)
      | inr e ↦ rw e (h, attach-IsFaithful now window event is hs)
    ]

resolve_all-IsFaithful :
    (now id : ℕ) (is : List Incident) → All IsFaithful is → All IsFaithful (resolve_all now id is)
unfolding resolve_all
resolve_all-IsFaithful now id [] h = tt
resolve_all-IsFaithful now id (i ∷ is) (h, hs) = (
  elim (Bool-cases (i.id == id)) [
    | inl e ↦ rw e (record { several = h.several; in_place = h.in_place; ranked = h.ranked })
    | inr e ↦ rw e h
  ],
  resolve_all-IsFaithful now id is hs,
)

is_related-InPlace :
    (now window : ℕ) (event ev : Event)
    → is_related now window event ev ≡ true
    → InPlace event.namespace event.resource ev
unfolding is_related
is_related-InPlace now window event ev h =
    ground (arith, text_eq_iff ev.namespace event.namespace, text_eq_iff ev.resource event.resource)

find_related-InPlace :
    (now window : ℕ) (evs : List Event) (event : Event)
    → All (InPlace event.namespace event.resource) (find_related now window evs event)
unfolding find_related
find_related-InPlace now window evs event =
    All-map _ _ (is_related-InPlace now window event) (filter (is_related now window event) evs)
      (All-filter (is_related now window event) evs)

form-IsFaithful :
    (now window id : ℕ) (evs : List Event) (event : Event)
    → leb 2 (length (find_related now window evs event)) ≡ true
    → IsFaithful (form now id event (find_related now window evs event))
unfolding form highest_severity
form-IsFaithful now window id evs event many =
    let related = find_related now window evs event in
    record {
      several = ground arith;
      in_place = find_related-InPlace now window evs event;
      ranked =
          omega (arith, highest_from-worst (codes "info") related, info_order, worst_pos related);
    }

conclude-IsFaithful :
    (now : ℕ) (event : Event) (kept : List Event) (extended : List Incident) (e : Engine)
    (found : Option Incident)
    → All IsFaithful extended
    → All IsFaithful e.incidents
    → All IsFaithful (conclude now event kept extended e found).0.incidents
unfolding conclude
conclude-IsFaithful now event kept extended e (some i) one two = one
conclude-IsFaithful now event kept extended e none one two =
    let related = find_related now e.window kept event in
    elim (Bool-cases (leb 2 (length related))) [
      | inl many ↦ rw many (
          All-append IsFaithful e.incidents (form now (suc e.incident_seq) event related ∷ []) two
            (form-IsFaithful now e.window (suc e.incident_seq) kept event many, tt))
      | inr few ↦ rw few two
    ]

Step-IsFaithful :
    {s u : System}
    → Step s u
    → All IsFaithful s.engine.incidents
    → All IsFaithful u.engine.incidents
unfolding ingest ingest_stamped resolve_incident
Step-IsFaithful {s} (ingested now event le) h =
    let e = s.engine in
    let stamped = stamp now event in
    conclude-IsFaithful now stamped (prune_old_events now e.window (e.events ++ stamped ∷ []))
      (attach now e.window stamped e.incidents).0 e (attach now e.window stamped e.incidents).1
      (attach-IsFaithful now e.window stamped e.incidents h) h
Step-IsFaithful {s} (resolved_one now id le) h = resolve_all-IsFaithful now id s.engine.incidents h

Reach-IsFaithful :
    {s u : System}
    → Reach s u
    → All IsFaithful s.engine.incidents
    → All IsFaithful u.engine.incidents
Reach-IsFaithful here h = h
Reach-IsFaithful (next r st) h = Step-IsFaithful st (Reach-IsFaithful r h)

-- In every engine that operations make of a new one, each incident has at least two events, all of
-- its own namespace and resource, and ranks as the worst of them.
pub incidents-IsFaithful :
    (window : ℕ) {s : System} → Reach (start window) s → All IsFaithful s.engine.incidents
unfolding new_engine
incidents-IsFaithful window r = Reach-IsFaithful r tt
