-- ===== src/Events/Bus/History.antt =====
-- What the bus remembers of all the events that were published on it.
use aotanami.Prelude.{
  length-drop, ◌==◌, sym, inr, ◌<◌, inl, filter, ◌||◌, false, true, Bool, take, Bool-cases, ltb,
  length-append, ◌∙◌, Text, refl, zero, ap, arith, ◌-◌, text_eq, suc, ◌+◌, ◌∷◌, if◌then◌else◌, ◌≡◌,
  length, ◌≤◌, ◌++◌, drop, ℕ,
}
use aotanami.Events.Bus.{
  reverse, recent, collect, cancel, subscribe, publish, [], new_bus, with_id, stamp, retain, List,
  Event, Bus,
}

-- The event that Publish stores.
abbrev pub stored : ℕ → Event → Bus → Event
stored now e b = let ev = stamp now e in with_id (if text_eq ev.id [] then b.seq + 1 else b.seq) ev

-- A bus that NewBus built and its operations changed, and the events stored on it, in order.
pub data Reach : Bus → List Event → Type 0 where
  started : (capacity : ℕ) → Reach (new_bus capacity) []
  published :
      (now : ℕ) (e : Event) {b : Bus} {log : List Event}
      → Reach b log
      → Reach (publish now e b) (log ++ stored now e b ∷ [])
  subscribed :
      (number : ℕ) {b : Bus} {log : List Event} → Reach b log → Reach (subscribe number b) log
  cancelled : (number : ℕ) {b : Bus} {log : List Event} → Reach b log → Reach (cancel number b) log

drop-append : (k : ℕ) (xs ys : List Event) → k ≤ length xs → drop k (xs ++ ys) ≡ drop k xs ++ ys
drop-append zero xs ys le = refl
drop-append (suc k) [] ys le = absurd (omega (arith, le))
drop-append (suc k) (x ∷ xs) ys le = drop-append k xs ys (omega (arith, le))

drop_one_more : (k : ℕ) (xs : List Event) → drop 1 (drop k xs) ≡ drop (suc k) xs
drop_one_more zero xs = refl
drop_one_more (suc k) [] = refl
drop_one_more (suc k) (x ∷ xs) = drop_one_more k xs

-- The newest events, at most as many as the capacity.
abbrev pub newest : ℕ → List Event → List Event
newest capacity log = drop (length log - capacity) log

retain_fits :
    (capacity : ℕ) (buffer : List Event)
    → length buffer ≤ capacity
    → retain capacity buffer ≡ buffer
unfolding retain
retain_fits capacity buffer le =
    let fits : ltb capacity (length buffer) ≡ false = ground (arith, le) in rw fits refl

retain_drops_one :
    (capacity : ℕ) (buffer : List Event)
    → length buffer ≡ suc capacity
    → retain capacity buffer ≡ drop 1 buffer
unfolding retain
retain_drops_one capacity buffer e =
    let over : ltb capacity (length buffer) ≡ true = ground (arith, e) in
    let one : length buffer - capacity ≡ 1 = omega (arith, e) in
    rw over (ap (λ n. drop n buffer) one)

retain-newest :
    (capacity : ℕ) (log : List Event) (e : Event)
    → retain capacity (newest capacity log ++ e ∷ []) ≡ newest capacity (log ++ e ∷ [])
retain-newest capacity log e = elim (Bool-cases (ltb (length log) capacity)) [
  | inl room ↦
      let small : length log < capacity = ground (arith, room) in
      let none_over : length log - capacity ≡ 0 = omega (arith, small) in
      let still_none : length (log ++ e ∷ []) - capacity ≡ 0 =
        omega (arith, length-append log (e ∷ []), small) in
      ap (λ n. retain capacity (drop n log ++ e ∷ [])) none_over
      ∙ retain_fits capacity (log ++ e ∷ []) (omega (arith, length-append log (e ∷ []), small))
      ∙ sym (ap (λ n. drop n (log ++ e ∷ [])) still_none)
  | inr full ↦
      let large : capacity ≤ length log = ground (arith, full) in
      let k = length log - capacity in
      let one_more : suc k ≡ length (log ++ e ∷ []) - capacity =
        omega (arith, length-append log (e ∷ []), large) in
      retain_drops_one capacity (drop k log ++ e ∷ [])
        (omega (arith, length-append (drop k log) (e ∷ []), length-drop k log, large))
      ∙ ap (drop 1) (sym (drop-append k log (e ∷ []) (omega arith)))
      ∙ drop_one_more k (log ++ e ∷ [])
      ∙ ap (λ n. drop n (log ++ e ∷ [])) one_more
]

drop-nil : (n : ℕ) → drop {A = Event} n [] ≡ []
drop-nil zero = refl
drop-nil (suc n) = refl

-- The buffer holds the newest events.
Reach-newest : {b : Bus} {log : List Event} → Reach b log → b.buffer ≡ newest b.capacity log
unfolding publish new_bus subscribe cancel
Reach-newest (started capacity) = sym (drop-nil (0 - (new_bus capacity).capacity))
Reach-newest (published now e {b} {log} r) =
    ap (λ xs. retain b.capacity (xs ++ stored now e b ∷ [])) (Reach-newest r)
    ∙ retain-newest b.capacity log (stored now e b)
Reach-newest (subscribed number r) = Reach-newest r
Reach-newest (cancelled number r) = Reach-newest r

-- The event is of the stage; the empty stage stands for every stage.
abbrev pub of_stage : Text → Event → Bool
of_stage stage e = text_eq stage [] || text_eq e.stage stage

collect-take :
    (stage : Text) (room : ℕ) (es : List Event)
    → collect stage room es ≡ take room (filter (of_stage stage) es)
unfolding collect
collect-take stage zero [] = refl
collect-take stage (suc room) [] = refl
collect-take stage zero (e ∷ es) = refl
collect-take stage (suc room) (e ∷ es) =
    ground (arith, collect-take stage room es, collect-take stage (suc room) es)

-- On every bus that NewBus built, after every sequence of its operations: Recent returns the newest
-- events that were published, at most as many as its limit, of the stage if there is one, newest
-- first, out of those that fit into the capacity.
pub recent_is_newest :
    (stage : Text) (limit : ℕ) {b : Bus} {log : List Event}
    → Reach b log
    → recent stage limit b
      ≡ take
          (if limit == 0 then 100 else limit)
          (filter (of_stage stage) (reverse (newest b.capacity log)))
unfolding recent
recent_is_newest stage limit {b} r =
    let room = if limit == 0 then 100 else limit in
    collect-take stage room (reverse b.buffer)
    ∙ ap (λ es. take room (filter (of_stage stage) (reverse es))) (Reach-newest r)
