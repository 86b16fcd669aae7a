-- ===== src/Events/Tests.antt =====
-- Three events on a bus of capacity two.
use aotanami.Events.Bus.History.{recent_is_newest, newest, of_stage, started, published, Reach}
use aotanami.Events.Bus.{Event, Bus, new_bus, publish, recent}
use aotanami.Prelude.{
  reverse, filter, ◌==◌, refl, if◌then◌else◌, ◌∷◌, take, codes, [], List, ◌≡◌, Text, text_eq, ℕ,
}

abbrev event : Text → ℕ → Event
event stage at = record {
  id = codes "e";
  type = codes "scan.started";
  stage = stage;
  level = codes "info";
  timestamp = at;
  title = [];
  detail = [];
  resource = [];
  severity = [];
  meta = [];
}

abbrev scan : Text
scan = codes "scan"

abbrev fix : Text
fix = codes "fix"

abbrev log : List Event
log = event scan 1 ∷ event fix 2 ∷ event scan 3 ∷ []

abbrev bus : Bus
bus = record { subscribers = []; buffer = event fix 2 ∷ event scan 3 ∷ []; capacity = 2; seq = 0 }

bus-Reach : Reach bus log
unfolding publish new_bus text_eq
bus-Reach =
    published 9 (event scan 3) (published 9 (event fix 2) (published 9 (event scan 1) (started 2)))

recent_is_newest_example :
    recent scan 5 bus
    ≡ take (if 5 == 0 then 100 else 5) (filter (of_stage scan) (reverse (newest 2 log)))
recent_is_newest_example = recent_is_newest scan 5 bus-Reach

newest_scan : recent scan 5 bus ≡ event scan 3 ∷ []
unfolding recent text_eq
newest_scan = refl
