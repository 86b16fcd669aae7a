-- ===== src/Events/Bus.antt =====
-- internal/events/events.go: Bus with Publish, Subscribe and Recent. Meta is an association list; a
-- copy of it is the same value. A subscriber is its number and what waits in its channel, which
-- holds 64 events; to cancel is to take it off.
pub mod History
use aotanami.Prelude.{
  decimal, ◌-◌, zero, ◌&&◌, map, ◌++◌, drop, reverse, length, suc, ◌+◌, codes, text_eq, not, ◌==◌,
  ◌∷◌, ltb, if◌then◌else◌, List, Text, [], filter, ℕ,
}

pub record Event : Type 0 where
  pub id : Text
  pub type : Text
  pub stage : Text
  pub level : Text
  pub timestamp : ℕ
  pub title : Text
  pub detail : Text
  pub resource : Text
  pub severity : Text
  pub meta : List (Text × Text)

pub record Subscriber : Type 0 where
  pub number : ℕ
  pub waiting : List Event

pub record Bus : Type 0 where
  pub subscribers : List Subscriber
  pub buffer : List Event
  pub capacity : ℕ
  pub seq : ℕ

-- NewBus; a capacity below 1 stands for 500.
unfoldable pub new_bus : ℕ → Bus
new_bus capacity = record {
  subscribers = [];
  buffer = [];
  capacity = if capacity == 0 then 500 else capacity;
  seq = 0;
}

-- The time that Publish gives an event without one.
pub stamp : ℕ → Event → Event
stamp now e = if e.timestamp == 0 then record e { timestamp = now } else e

-- The id that Publish gives an event without one.
pub with_id : ℕ → Event → Event
with_id seq e =
    if text_eq e.id []
    then record e { id = codes "evt-" ++ decimal e.timestamp ++ codes "-" ++ decimal seq }
    else e

-- The buffer after an event is appended and the oldest ones beyond the capacity are dropped.
pub retain : ℕ → List Event → List Event
retain capacity buffer =
    if ltb capacity (length buffer) then drop (length buffer - capacity) buffer else buffer

abbrev pub channel_size : ℕ
channel_size = 64

-- The non-blocking send: a full channel drops the event.
pub offer : Event → Subscriber → Subscriber
offer e s =
    if ltb (length s.waiting) channel_size then record s { waiting = s.waiting ++ e ∷ [] } else s

-- Publish of an event that has a time.
pub publish_stamped : Event → Bus → Bus
unfolding with_id retain offer
publish_stamped e b =
    let seq = if text_eq e.id [] then b.seq + 1 else b.seq in
    let ev = with_id seq e in
    record b {
      subscribers = map (offer ev) b.subscribers;
      buffer = retain b.capacity (b.buffer ++ ev ∷ []);
      seq = seq;
    }

-- Publish
unfoldable pub publish : ℕ → Event → Bus → Bus
unfolding publish_stamped stamp
publish now e b = publish_stamped (stamp now e) b

-- Subscribe
pub subscribe : ℕ → Bus → Bus
subscribe number b = record b {
  subscribers = (record { number = number; waiting = [] }) ∷ b.subscribers;
}

-- The cancel function of Subscribe.
pub cancel : ℕ → Bus → Bus
cancel number b = record b { subscribers = filter (λ s. not (s.number == number)) b.subscribers }

-- The loop of Recent over the buffer from its end, with room for `room` further events.
pub collect : Text → ℕ → List Event → List Event
collect stage room [] = []
collect stage zero (e ∷ es) = []
collect stage (suc room) (e ∷ es) =
    let skip = collect stage (suc room) es in
    let rest = collect stage room es in
    if not (text_eq stage []) && not (text_eq e.stage stage) then skip else e ∷ rest

-- Recent; a limit below 1 stands for 100.
unfoldable pub recent : Text → ℕ → Bus → List Event
unfolding collect
recent stage limit b = collect stage (if limit == 0 then 100 else limit) (reverse b.buffer)
