-- ===== src/Correlator/Window.antt =====
-- The correlation window: which events are kept, and when an incident forms.
use aotanami.Prelude.{
  suc, leb, All-filter, All-map, Option, refl, inr, inl, Bool-cases, true, false, none, some, Bool,
  ℕ, ◌+◌, ◌*◌, ◌≤◌, ◌<◌, ◌≡◌, ◌↔◌, List, [], ◌∷◌, ◌++◌, arith, All, filter, length, ltb,
}
use aotanami.Correlator.{
  Report, form, Event, Incident, Engine, attach, conclude, ingest, ingest_stamped, find_related,
  stamp, prune_old_events, is_related,
}
use aotanami.Correlator.Live.{is_live, attach-none}

-- The filter by `p` does not see that of a weaker `q`.
filter-filter {ℓ} :
    {A : Type ℓ} (p q : A → Bool) (xs : List A)
    → ((x : A) → p x ≡ true → q x ≡ true)
    → filter p (filter q xs) ≡ filter p xs
filter-filter p q [] h = refl
filter-filter p q (x ∷ xs) h = elim (Bool-cases (p x)) [
  | inl e ↦ ground (arith, e, h x e, filter-filter p q xs h)
  | inr e ↦ ground (arith, e, filter-filter p q xs h)
]

-- Dropping the events of more than ten windows ago drops none that the correlation could use.
pub find_related-prune_old_events :
    (now window : ℕ) (events : List Event) (event : Event)
    → 0 < window
    → find_related now window (prune_old_events now window events) event
      ≡ find_related now window events event
unfolding find_related prune_old_events
find_related-prune_old_events now window events event h =
    filter-filter (is_related now window event) (λ ev. ltb now (ev.timestamp + window * 10)) events
      (λ ev. unfold is_related in λ r. ground arith)

pub conclude-events :
    (now : ℕ) (event : Event) (kept : List Event) (extended : List Incident) (e : Engine)
    (found : Option Incident)
    → (conclude now event kept extended e found).0.events ≡ kept
unfolding conclude
conclude-events now event kept extended e (some i) = refl
conclude-events now event kept extended e none = ground arith

-- No event that Ingest leaves in the engine is ten windows old or older.
pub ingest_retention :
    (now : ℕ) (event : Event) (e : Engine)
    → All (λ ev. now < ev.timestamp + e.window * 10) (ingest now event e).0.events
unfolding ingest ingest_stamped
ingest_retention now event e =
    let stamped = stamp now event in
    let all = e.events ++ stamped ∷ [] in
    let recent = λ (ev : Event). ltb now (ev.timestamp + e.window * 10) in
    let (extended, found) = attach now e.window stamped e.incidents in
    rw (conclude-events now stamped (prune_old_events now e.window all) extended e found) (
      unfold prune_old_events in
      All-map _ _ (λ ev h. ground arith) (filter recent all) (All-filter recent all))

attach_nothing :
    (now window : ℕ) (event : Event) (is : List Incident)
    → All (λ i. is_live now window event i ≡ false) is
    → (attach now window event is).1 ≡ none
unfolding attach
attach_nothing now window event [] h = refl
attach_nothing now window event (i ∷ is) (h, hs) =
    ground (arith, h, attach_nothing now window event is hs)

-- The engine has one incident more: an open one of these events, which is announced.
pub record HasFormed (e : Engine) (event : Event) (related : List Event) (r : Engine × Report)
    : Type 0 where
  pub formed : Incident
  pub stored : r.0.incidents ≡ e.incidents ++ formed ∷ []
  pub of_related : formed.events ≡ related
  pub of_place : (formed.namespace ≡ event.namespace) × (formed.resource ≡ event.resource)
  pub is_open : formed.resolved ≡ false
  pub notified : r.1.notified ≡ some formed
  pub grouped : r.1.grouped ≡ some (length related)

conclude-HasFormed :
    (now : ℕ) (event : Event) (kept : List Event) (extended : List Incident) (e : Engine)
    (found : Option Incident)
    → let related = find_related now e.window kept event in
      HasFormed e event related (conclude now event kept extended e found)
      ↔ ((found ≡ none) × (2 ≤ length related))
unfolding conclude form
conclude-HasFormed now event kept extended e (some i) =
    ((λ h. absurd (ground (arith, h.grouped))), λ h. absurd (ground (arith, h.0)))
conclude-HasFormed now event kept extended e none =
    let related = find_related now e.window kept event in
    elim (Bool-cases (leb 2 (length related))) [
      | inl b ↦ rw b (
        (λ _. (refl, ground (arith, b))),
        λ _. record {
          formed = form now (suc e.incident_seq) event related;
          stored = refl;
          of_related = refl;
          of_place = (refl, refl);
          is_open = refl;
          notified = refl;
          grouped = refl;
        },
      )
      | inr b ↦
          rw b ((λ h. absurd (ground (arith, h.grouped))), λ h. absurd (ground (arith, b, h.1)))
    ]

-- With a window that is not 0, Ingest adds a new, open incident of the related events to those of
-- the engine, and announces it and how many events it groups, exactly when no open incident
-- correlates with the event and at least two of the events so far, this one included, are of its
-- place and within the window.
pub ingest_forms_iff :
    (now : ℕ) (event : Event) (e : Engine)
    → 0 < e.window
    → let event' = stamp now event in
      let related = find_related now e.window (e.events ++ event' ∷ []) event' in
      HasFormed e event' related (ingest now event e)
      ↔ (All (λ i. is_live now e.window event' i ≡ false) e.incidents × (2 ≤ length related))
unfolding ingest ingest_stamped
ingest_forms_iff now event e h =
    let event' = stamp now event in
    let all = e.events ++ event' ∷ [] in
    let (extended, found) = attach now e.window event' e.incidents in
    let (to, from) =
      conclude-HasFormed now event' (prune_old_events now e.window all) extended e found in
    rw (← find_related-prune_old_events now e.window all event' h) (
      λ g. (attach-none now e.window event' e.incidents (to g).0, (to g).1),
      λ g. from (attach_nothing now e.window event' e.incidents g.0, g.1),
    )
