-- ===== src/Correlator/Live.antt =====
-- The incident that an event joins. Ingest takes the first one that `range` meets, in Go's random
-- order, so it matters that there is only one.
use aotanami.Prelude.{
  All-append, ◌++◌, text_eq_refl, sym, ◌∙◌, text_eq, none, ap, All-map, inl, inr, Bool-cases,
  text_eq_iff, ℕ, ◌≤◌, ◌≡◌, Bool, true, false, not, ◌&&◌, List, [], ◌∷◌, arith, All,
}
use aotanami.Correlator.{resolve, resolve_all, absorb, attach, Event, Incident, correlates}

-- The test of the loop in Ingest.
abbrev pub is_live : ℕ → ℕ → Event → Incident → Bool
is_live now window event i = not i.resolved && correlates now window event i

abbrev pub AtMostOne {ℓ} : {A : Type ℓ} → (A → Bool) → List A → Type 0
AtMostOne p [] = Unit
AtMostOne p (x ∷ xs) = (p x ≡ true → All (λ y. p y ≡ false) xs) × AtMostOne p xs

-- An incident is compared by its place, and time only takes liveness away.
is_live_transfer :
    (window now t : ℕ) (event event' : Event) (i j : Incident)
    → now ≤ t
    → event.namespace ≡ i.namespace
    → event.resource ≡ i.resource
    → event'.namespace ≡ i.namespace
    → event'.resource ≡ i.resource
    → is_live now window event j ≡ false
    → is_live t window event' j ≡ false
unfolding correlates
is_live_transfer window now t event event' i j h n r n' r' dead =
    rw (n', r')
      (ground (arith, let dead' : is_live now window event j ≡ false = dead in rw (n, r) at dead'))

-- The place of a live incident is that of the event.
pub is_live_place :
    (t window : ℕ) (event : Event) (i : Incident)
    → is_live t window event i ≡ true
    → (event.namespace ≡ i.namespace) × (event.resource ≡ i.resource)
unfolding correlates
is_live_place t window event i h =
    ground (arith, text_eq_iff event.namespace i.namespace, text_eq_iff event.resource i.resource)

-- The event of `i` is elsewhere than that of `j`, if one finds `i` dead and the other does not.
absorb_is_dead :
    (window now t : ℕ) (event event' : Event) (i j : Incident)
    → now ≤ t
    → is_live now window event i ≡ false
    → is_live t window event' i ≡ true
    → is_live now window event j ≡ true
    → is_live t window event' (absorb now event j) ≡ false
unfolding correlates absorb
absorb_is_dead window now t event event' i j h dead live found =
    let (n, r) = is_live_place t window event' i live in
    let (n', r') = is_live_place now window event j found in
    elim (Bool-cases (is_live t window event' (absorb now event j))) [
      | inr e ↦ e
      | inl e ↦
          let (m, s) = is_live_place t window event' (absorb now event j) e in
          absurd (
            ground (
              arith,
              ap (λ x. text_eq x i.namespace) (n' ∙ sym m ∙ n),
              text_eq_refl i.namespace,
              text_eq_refl i.resource,
            ))
    ]

attach-All :
    (window now t : ℕ) (event event' : Event) (i : Incident) (is : List Incident)
    → now ≤ t
    → is_live now window event i ≡ false
    → is_live t window event' i ≡ true
    → All (λ j. is_live t window event' j ≡ false) is
    → All (λ j. is_live t window event' j ≡ false) (attach now window event is).0
unfolding attach
attach-All window now t event event' i [] h dead live all = tt
attach-All window now t event event' i (j ∷ is) h dead live (one, all) =
    elim (Bool-cases (is_live now window event j)) [
      | inl e ↦ rw e (absorb_is_dead window now t event event' i j h dead live e, all)
      | inr e ↦ rw e (one, attach-All window now t event event' i is h dead live all)
    ]

pub attach-AtMostOne :
    (window now t : ℕ) (event event' : Event) (is : List Incident)
    → now ≤ t
    → AtMostOne (is_live now window event) is
    → AtMostOne (is_live t window event') is
    → AtMostOne (is_live t window event') (attach now window event is).0
unfolding attach
attach-AtMostOne window now t event event' [] h one two = tt
attach-AtMostOne window now t event event' (i ∷ is) h (one, ones) (two, twos) =
    elim (Bool-cases (is_live now window event i)) [
      | inl e ↦ rw e (
        λ live.
            let (n, r) = is_live_place now window event i e in
            let (n', r') = is_live_place t window event' (absorb now event i) live in
            All-map _ _
              (λ j.
                is_live_transfer window now t event event' i j h n r (unfold absorb in n')
                  (unfold absorb in r'))
              is (one e),
        twos,
      )
      | inr e ↦ rw e (
        λ live. attach-All window now t event event' i is h e live (two live),
        attach-AtMostOne window now t event event' is h ones twos,
      )
    ]

pub attach-none :
    (now window : ℕ) (event : Event) (is : List Incident)
    → (attach now window event is).1 ≡ none
    → All (λ j. is_live now window event j ≡ false) is
unfolding attach
attach-none now window event [] h = tt
attach-none now window event (i ∷ is) h = elim (Bool-cases (is_live now window event i)) [
  | inl e ↦ absurd (ground (arith, e))
  | inr e ↦ (e, attach-none now window event is (rw e at h))
]

-- An event that finds nothing makes an incident that is alone at its place.
pub AtMostOne-snoc :
    (window now t : ℕ) (event event' : Event) (new : Incident) (is : List Incident)
    → now ≤ t
    → new.namespace ≡ event.namespace
    → new.resource ≡ event.resource
    → All (λ j. is_live now window event j ≡ false) is
    → AtMostOne (is_live t window event') is
    → AtMostOne (is_live t window event') (is ++ new ∷ [])
AtMostOne-snoc window now t event event' new [] h n r dead one = ((λ _. tt), tt)
AtMostOne-snoc window now t event event' new (i ∷ is) h n r (dead, deads) (one, ones) = (
  λ live. All-append _ is (new ∷ []) (one live) (elim (Bool-cases (is_live t window event' new)) [
    | inr e ↦ (e, tt)
    | inl e ↦
        let (m, s) = is_live_place t window event' i live in
        let (m', s') = is_live_place t window event' new e in
        let dead' : is_live t window event' i ≡ false =
          is_live_transfer window now t event event' new i h (sym n) (sym r) m' s' dead in
        absurd (ground (arith, dead', live))
  ]),
  AtMostOne-snoc window now t event event' new is h n r deads ones,
)

resolve-is_live :
    (window now t id : ℕ) (event : Event) (i : Incident)
    → is_live t window event i ≡ false
    → is_live t window event (resolve now id i) ≡ false
unfolding correlates
resolve-is_live window now t id event i h = ground arith

resolve_all-dead :
    (window now t id : ℕ) (event : Event) (is : List Incident)
    → All (λ j. is_live t window event j ≡ false) is
    → All (λ j. is_live t window event j ≡ false) (resolve_all now id is)
unfolding resolve_all
resolve_all-dead window now t id event [] h = tt
resolve_all-dead window now t id event (i ∷ is) (h, hs) =
    (resolve-is_live window now t id event i h, resolve_all-dead window now t id event is hs)

pub resolve_all-AtMostOne :
    (window now t id : ℕ) (event : Event) (is : List Incident)
    → AtMostOne (is_live t window event) is
    → AtMostOne (is_live t window event) (resolve_all now id is)
unfolding resolve_all
resolve_all-AtMostOne window now t id event [] one = tt
resolve_all-AtMostOne window now t id event (i ∷ is) (one, ones) = (
  λ live. resolve_all-dead window now t id event is (
      one (elim (Bool-cases (is_live t window event i)) [
        | inl e ↦ e
        | inr e ↦ absurd (ground (arith, resolve-is_live window now t id event i e, live))
      ])),
  resolve_all-AtMostOne window now t id event is ones,
)
