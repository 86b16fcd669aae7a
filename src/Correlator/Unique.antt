-- ===== src/Correlator/Unique.antt =====
-- However events are ingested and incidents resolved, an event finds at most one incident to join,
-- so the random order of Go's `range` over the map does not matter.
use mathlib.Core.Path.{subst}
use aotanami.Prelude.{
  All-Elem, Elem, sym, ◌++◌, inr, All-map, suc, length, inl, leb, Bool-cases, false, ℕ, ◌≤◌, ◌≡◌,
  true, Option, none, some, List, [], ◌∷◌, ◌++◌, arith, All, refl,
}
use aotanami.Correlator.{
  prune_old_events, find_related, Event, Incident, Engine, new_engine, absorb, attach, form,
  conclude, stamp, ingest, ingest_stamped, resolve_incident,
}
use aotanami.Correlator.Live.{
  is_live, AtMostOne, attach-AtMostOne, attach-none, AtMostOne-snoc, resolve_all-AtMostOne,
}

-- An engine and the time of the last operation on it.
pub record System : Type 0 where
  pub engine : Engine
  pub now : ℕ

abbrev pub start : ℕ → System
start window = record { engine = new_engine window; now = 0 }

-- The operations that change the engine, under its lock, at times that do not fall.
pub data Step (s : System) : System → Type 0 where
  ingested :
      (t : ℕ) (event : Event)
      → s.now ≤ t
      → Step s (record { engine = (ingest t event s.engine).0; now = t })
  resolved_one :
      (t id : ℕ) → s.now ≤ t → Step s (record { engine = resolve_incident t id s.engine; now = t })

pub data Reach (s : System) : System → Type 0 where
  here : Reach s s
  next : {t u : System} → Reach s t → Step t u → Reach s u

-- From `now` on, no event can find two live incidents.
abbrev Unambiguous : System → Type 0
Unambiguous s =
    (t : ℕ) (event : Event)
    → s.now ≤ t
    → AtMostOne (is_live t s.engine.window event) s.engine.incidents

-- The three ways in which Ingest ends.
conclude-AtMostOne :
    (now t : ℕ) (event event' : Event) (kept : List Event) (extended : List Incident) (e : Engine)
    (found : Option Incident)
    → now ≤ t
    → (found ≡ none → All (λ j. is_live now e.window event j ≡ false) e.incidents)
    → AtMostOne (is_live t e.window event') extended
    → AtMostOne (is_live t e.window event') e.incidents
    → let e' = (conclude now event kept extended e found).0 in
      AtMostOne (is_live t e'.window event') e'.incidents
unfolding conclude
conclude-AtMostOne now t event event' kept extended e (some i) h dead one two = one
conclude-AtMostOne now t event event' kept extended e none h dead one two =
    let related = find_related now e.window kept event in
    elim (Bool-cases (leb 2 (length related))) [
      | inl many ↦ rw many (
          AtMostOne-snoc e.window now t event event' (form now (suc e.incident_seq) event related)
            e.incidents h (unfold form in refl) (unfold form in refl) (dead refl) two)
      | inr few ↦ rw few two
    ]

Step-Unambiguous : {s u : System} → Step s u → Unambiguous s → Unambiguous u
unfolding ingest ingest_stamped resolve_incident
Step-Unambiguous {s} (ingested now event le) one t event' h =
    let e = s.engine in
    let stamped = stamp now event in
    let before = one now stamped le in
    let after = one t event' (omega arith) in
    conclude-AtMostOne now t stamped event'
      (prune_old_events now e.window (e.events ++ stamped ∷ []))
      (attach now e.window stamped e.incidents).0 e (attach now e.window stamped e.incidents).1 h
      (attach-none now e.window stamped e.incidents)
      (attach-AtMostOne e.window now t stamped event' e.incidents h before after) after
Step-Unambiguous {s} (resolved_one now id le) one t event' h =
    resolve_all-AtMostOne s.engine.window now t id event' s.engine.incidents
      (one t event' (omega arith))

Reach-Unambiguous : {s u : System} → Reach s u → Unambiguous s → Unambiguous u
Reach-Unambiguous here one = one
Reach-Unambiguous (next r st) one = Step-Unambiguous st (Reach-Unambiguous r one)

start-Unambiguous : (window : ℕ) → Unambiguous (start window)
unfolding new_engine
start-Unambiguous window t event h = tt

attach_passes :
    (now window : ℕ) (event : Event) (i : Incident) (is : List Incident)
    → is_live now window event i ≡ false
    → (attach now window event (i ∷ is)).1 ≡ (attach now window event is).1
unfolding attach
attach_passes now window event i is h = rw h

attach_stops :
    (now window : ℕ) (event : Event) (i : Incident) (is : List Incident)
    → is_live now window event i ≡ true
    → (attach now window event (i ∷ is)).1 ≡ some (absorb now event i)
unfolding attach
attach_stops now window event i is h = rw h

attach_finds :
    (now window : ℕ) (event : Event) (is : List Incident)
    → AtMostOne (is_live now window event) is
    → All
        (λ i.
          is_live now window event i ≡ true
          → (attach now window event is).1 ≡ some (absorb now event i))
        is
attach_finds now window event [] one = tt
attach_finds now window event (i ∷ is) (one, ones) =
    elim (Bool-cases (is_live now window event i)) [
      | inl e ↦ (
        attach_stops now window event i is,
        All-map _ _ (λ j dead live. absurd (ground (arith, dead, live))) is (one e),
      )
      | inr e ↦ (
        (λ live. absurd (ground (arith, e, live))),
        subst (λ o. All (λ j. is_live now window event j ≡ true → o ≡ some (absorb now event j)) is)
            (sym (attach_passes now window event i is e)) (attach_finds now window event is ones),
      )
    ]

-- In every engine that operations make of a new one, and at every time after them: if an incident
-- is open and correlates with an event, it is the one that the event joins. The loop extends it, in
-- whatever order it meets the incidents.
pub joined_incident_is_unique :
    (window t : ℕ) (event : Event) (i : Incident) {s : System}
    → Reach (start window) s
    → s.now ≤ t
    → Elem i s.engine.incidents
    → is_live t s.engine.window event i ≡ true
    → (attach t s.engine.window event s.engine.incidents).1 ≡ some (absorb t event i)
joined_incident_is_unique window t event i {s} r h m live =
    let found =
      attach_finds t s.engine.window event s.engine.incidents
        (Reach-Unambiguous r (start-Unambiguous window) t event h) in
    All-Elem
      (λ j.
        is_live t s.engine.window event j ≡ true
        → (attach t s.engine.window event s.engine.incidents).1 ≡ some (absorb t event j))
      i s.engine.incidents found m live
