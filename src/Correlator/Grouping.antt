-- ===== src/Correlator/Grouping.antt =====
-- Two events of one place within the window leave an open incident of that place.
use aotanami.Correlator.Live.{is_live_place, is_live}
use aotanami.Prelude.{
  Any-snoc, Any-filter, length-filter_two, Any-append_left, ltb, ◌*◌, text_eq_iff, text_eq_refl,
  ◌+◌, ◌<◌, refl, none, length, filter, leb, Option, true, ◌++◌, [], inr, inl, Bool-cases, arith,
  ◌∷◌, some, List, false, ◌≡◌, ◌≤◌, ℕ, Any, Text,
}
use aotanami.Correlator.{
  stamp, is_related, prune_old_events, find_related, ingest_stamped, form, ingest, conclude, absorb,
  attach, Incident, Engine, Event,
}
use aotanami.Correlator.Window.{conclude-events, find_related-prune_old_events}
use aotanami.Correlator.Severity.{InPlace}

-- The incident is open, and of this place.
abbrev pub IsOpenAt : Text → Text → Incident → Type 0
IsOpenAt ns name i = (i.resolved ≡ false) × (i.namespace ≡ ns) × (i.resource ≡ name)

abbrev pub HasOpen : Text → Text → Engine → Type 0
HasOpen ns name e = Any (IsOpenAt ns name) e.incidents

-- An event of this place, not older than `t`.
abbrev pub IsSince : Text → Text → ℕ → Event → Type 0
IsSince ns name t ev = InPlace ns name ev × (t ≤ ev.timestamp)

abbrev pub HasSince : Text → Text → ℕ → Engine → Type 0
HasSince ns name t e = Any (IsSince ns name t) e.events

module _ (ns name : Text) (now window : ℕ) (event : Event) where
  attach-open :
      (is : List Incident)
      → Any (IsOpenAt ns name) is
      → Any (IsOpenAt ns name) (attach now window event is).0
  unfolding attach
  attach-open [] m = absurd m
  attach-open (i ∷ is) m = elim (Bool-cases (is_live now window event i)) [
    | inl e ↦ rw e (elim m [ inl h ↦ inl (unfold absorb in h) | inr k ↦ inr k ])
    | inr e ↦ rw e (elim m [ inl h ↦ inl h | inr k ↦ inr (attach-open is k) ])
  ]

  attach-found :
      (is : List Incident) (i : Incident)
      → InPlace ns name event
      → (attach now window event is).1 ≡ some i
      → Any (IsOpenAt ns name) (attach now window event is).0
  unfolding attach
  attach-found [] i p h = absurd (ground (arith, h))
  attach-found (j ∷ is) i p h = elim (Bool-cases (is_live now window event j)) [
    | inl e ↦
        let (same_ns, same_name) = is_live_place now window event j e in
        rw e (inl (unfold absorb in ground arith))
    | inr e ↦ rw e (inr (attach-found is i p (rw e at h)))
  ]

module _ (ns name : Text) (now : ℕ) (event : Event) where
  conclude-open :
      (kept : List Event) (extended : List Incident) (e : Engine) (found : Option Incident)
      → Any (IsOpenAt ns name) extended
      → Any (IsOpenAt ns name) e.incidents
      → HasOpen ns name (conclude now event kept extended e found).0
  unfolding conclude
  conclude-open kept extended e (some i) m k = m
  conclude-open kept extended e none m k =
      elim (Bool-cases (leb 2 (length (find_related now e.window kept event)))) [
        | inl many ↦ rw many (Any-append_left _ e.incidents _ k)
        | inr few ↦ rw few k
      ]

  conclude-forms :
      (kept : List Event) (extended : List Incident) (e : Engine) (found : Option Incident)
      → InPlace ns name event
      → ((i : Incident) → found ≡ some i → Any (IsOpenAt ns name) extended)
      → 2 ≤ length (find_related now e.window kept event)
      → HasOpen ns name (conclude now event kept extended e found).0
  unfolding conclude form
  conclude-forms kept extended e (some i) p m many = m i refl
  conclude-forms kept extended e none p m many =
      let two : leb 2 (length (find_related now e.window kept event)) ≡ true = ground arith in
      rw two (Any-snoc _ e.incidents _ (refl, p.0, p.1))

  related_since :
      (t window : ℕ)
      → InPlace ns name event
      → now ≤ t + window
      → (ev : Event) → IsSince ns name t ev
      → is_related now window event ev ≡ true
  unfolding is_related
  related_since t window (same_ns, same_name) recent ev ((p, q), since) =
      ground
        (arith, text_eq_iff ev.namespace event.namespace, text_eq_iff ev.resource event.resource)

  related_self :
      (window : ℕ) → now ≤ event.timestamp + window → is_related now window event event ≡ true
  unfolding is_related
  related_self window own =
      ground (arith, text_eq_refl event.namespace, text_eq_refl event.resource)

  kept-IsSince :
      (t window : ℕ) (evs : List Event)
      → now < t + window * 10
      → Any (IsSince ns name t) evs
      → Any (IsSince ns name t) (prune_old_events now window evs)
  unfolding prune_old_events
  kept-IsSince t window evs recent m =
      Any-filter (IsSince ns name t) (λ ev. ltb now (ev.timestamp + window * 10)) evs
        (λ ev h. let since = h.1 in ground arith) m

  stamped-HasOpen :
      (e : Engine) → HasOpen ns name e → HasOpen ns name (ingest_stamped now event e).0
  unfolding ingest_stamped
  stamped-HasOpen e m =
      let (extended, found) = attach now e.window event e.incidents in
      conclude-open (prune_old_events now e.window (e.events ++ event ∷ [])) extended e found
        (attach-open ns name now e.window event e.incidents m) m

  -- The event of a place that had one within the window finds or forms an open incident.
  stamped-second :
      (t : ℕ) (e : Engine)
      → InPlace ns name event
      → 0 < e.window
      → now ≤ t + e.window
      → now ≤ event.timestamp + e.window
      → HasSince ns name t e
      → HasOpen ns name (ingest_stamped now event e).0
  unfolding ingest_stamped
  stamped-second t e p positive recent own m =
      let all = e.events ++ event ∷ [] in
      let (extended, found) = attach now e.window event e.incidents in
      let related = is_related now e.window event in
      let many : 2 ≤ length (filter related all) =
        length-filter_two (IsSince ns name t) related e.events event
          (related_since t e.window p recent) m (related_self e.window own) in
      conclude-forms (prune_old_events now e.window all) extended e found p
        (λ i h. attach-found ns name now e.window event e.incidents i p h)
        (rw (find_related-prune_old_events now e.window all event positive)
          (unfold find_related in many))

  -- Events within the window are kept.
  stamped-HasSince :
      (t : ℕ) (e : Engine)
      → now < t + e.window * 10
      → HasSince ns name t e
      → HasSince ns name t (ingest_stamped now event e).0
  unfolding ingest_stamped
  stamped-HasSince t e recent m =
      let all = e.events ++ event ∷ [] in
      let (extended, found) = attach now e.window event e.incidents in
      rw (conclude-events now event (prune_old_events now e.window all) extended e found) (
        kept-IsSince t e.window all recent
          (Any-append_left (IsSince ns name t) e.events (event ∷ []) m))

  stamped-first :
      (t : ℕ) (e : Engine)
      → now < t + e.window * 10
      → IsSince ns name t event
      → HasSince ns name t (ingest_stamped now event e).0
  unfolding ingest_stamped
  stamped-first t e recent p =
      let all = e.events ++ event ∷ [] in
      let (extended, found) = attach now e.window event e.incidents in
      rw (conclude-events now event (prune_old_events now e.window all) extended e found)
        (kept-IsSince t e.window all recent (Any-snoc (IsSince ns name t) e.events event p))

-- The same of Ingest, whose event gets its time first.
module _ (ns name : Text) (now : ℕ) (event : Event) where
  pub ingest-HasOpen : (e : Engine) → HasOpen ns name e → HasOpen ns name (ingest now event e).0
  unfolding ingest
  ingest-HasOpen e m = stamped-HasOpen ns name now (stamp now event) e m

  pub ingest-HasSince :
      (t : ℕ) (e : Engine)
      → now < t + e.window
      → HasSince ns name t e
      → HasSince ns name t (ingest now event e).0
  unfolding ingest
  ingest-HasSince t e recent m = stamped-HasSince ns name now (stamp now event) t e (omega arith) m

  stamp-InPlace : InPlace ns name event → InPlace ns name (stamp now event)
  unfolding stamp
  stamp-InPlace p = ground arith

  pub ingest_first :
      (e : Engine)
      → event.timestamp ≡ 0
      → InPlace ns name event
      → 0 < e.window
      → HasSince ns name now (ingest now event e).0
  unfolding ingest
  ingest_first e new p positive =
      stamped-first ns name now (stamp now event) now e (omega arith)
        (stamp-InPlace p, unfold stamp in ground arith)

  pub ingest_second :
      (t : ℕ) (e : Engine)
      → event.timestamp ≡ 0
      → InPlace ns name event
      → now < t + e.window
      → 0 < e.window
      → HasSince ns name t e
      → HasOpen ns name (ingest now event e).0
  unfolding ingest
  ingest_second t e new p recent positive m =
      stamped-second ns name now (stamp now event) t e (stamp-InPlace p) positive (omega arith)
        (unfold stamp in ground arith) m

-- The window never changes.
module _ (now : ℕ) (event : Event) where
  conclude-window :
      (kept : List Event) (extended : List Incident) (e : Engine) (found : Option Incident)
      → (conclude now event kept extended e found).0.window ≡ e.window
  unfolding conclude
  conclude-window kept extended e (some i) = refl
  conclude-window kept extended e none = ground arith

  stamped-window : (e : Engine) → (ingest_stamped now event e).0.window ≡ e.window
  unfolding ingest_stamped
  stamped-window e =
      let (extended, found) = attach now e.window event e.incidents in
      conclude-window (prune_old_events now e.window (e.events ++ event ∷ [])) extended e found

pub ingest-window :
    (now : ℕ) (event : Event) (e : Engine) → (ingest now event e).0.window ≡ e.window
unfolding ingest
ingest-window now event e = stamped-window now (stamp now event) e
