-- ===== src/Llm/Breaker/Tests.antt =====
-- The breaker at concrete inputs.
use aotanami.Prelude.{
  ℕ, ◌≤◌, ◌+◌, ◌≡◌, refl, ◌≢◌, ◌↔◌, true, false, some, [], ◌∷◌, arith, length, take, all,
}
use aotanami.Llm.Error.{awaiting_probe, ok}
use aotanami.Llm.Breaker.{
  Breaker, circuit_closed, circuit_open, circuit_half_open, new, allow_request, record_result,
  threshold, complete, Client,
}
use aotanami.Llm.Breaker.Invariant.{
  System, start, Reach, here, next, admit, finish, trips_exactly_on_failures, half_open_refuses,
}
use aotanami.Llm.Breaker.Recovery.{complete_recovers}

-- Threshold 2, timeout 30, two failures at times 1 and 2.
abbrev failed_twice : Breaker
failed_twice = record {
  failure_threshold = 2;
  reset_timeout = 30;
  state = circuit_open;
  half_open_in_flight = false;
  consecutive_fails = 2;
  last_failure = 2;
}

default_threshold : threshold (new 0 30) ≡ 5
unfolding threshold new
default_threshold = refl

failures_open : record_result 2 true (record_result 1 true (new 2 30)) ≡ failed_twice
unfolding record_result new
failures_open = refl

-- Two requests are let through at times 0 and 0, and fail at times 1 and 2.
abbrev tripped : System
tripped = record { breaker = failed_twice; pending = 0; failures = true ∷ true ∷ [] }

tripped-Reach : Reach (start 2 30) tripped
unfolding allow_request record_result new
tripped-Reach =
    next (next (next (next here (admit 0 refl)) (admit 0 refl)) (finish 1 true (omega arith)))
      (finish 2 true (omega arith))

-- A probe is let through at time 33.
abbrev probed : System
probed = record tripped {
  breaker = record failed_twice { state = circuit_half_open; half_open_in_flight = true };
  pending = 1;
}

probed-Reach : Reach (start 2 30) probed
unfolding allow_request
probed-Reach = next tripped-Reach (admit 33 refl)

trips_exactly_on_failures_example : (failed_twice.state ≢ circuit_closed) ↔ (
    (threshold failed_twice ≤ length (true ∷ true ∷ []))
    × (all (λ r. r) (take (threshold failed_twice) (true ∷ true ∷ [])) ≡ true))
trips_exactly_on_failures_example = trips_exactly_on_failures 2 30 tripped-Reach

half_open_refuses_example : allow_request 34 probed.breaker ≡ (probed.breaker, some awaiting_probe)
half_open_refuses_example = half_open_refuses 2 30 34 probed-Reach refl

-- A provider whose world is a clock: each call takes 7 and answers with the request.
abbrev echo : Client ℕ ℕ ℕ
echo s req = (s + 7, ok req)

complete_recovers_example :
    complete echo (λ s. s) (failed_twice, 33) 9
    ≡ ((record failed_twice { state = circuit_closed; consecutive_fails = 0 }, 40), ok 9)
complete_recovers_example =
    complete_recovers echo (λ s. s) failed_twice 33 9 refl (omega arith)
      (unfold threshold in omega arith)
