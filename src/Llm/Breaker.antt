-- ===== src/Llm/Breaker.antt =====
-- internal/llm/circuit_breaker.go. A method on `*circuitBreakerClient` returns the new record.
-- Times and durations are numbers of nanoseconds; `time.Since(t)` is `now - t`, and the clock
-- given to an operation is read once, as in the source.
pub mod Invariant
pub mod Recovery
mod Tests
use aotanami.Prelude.{
  ℕ, ◌+◌, ◌-◌, Bool, true, false, Option, none, some, ltb, leb, ◌==◌, if◌then◌else◌,
}
use aotanami.Llm.Error.{Error, breaker_open, awaiting_probe, Result, ok, err, is_err}

pub data CircuitState : Type 0 where
  circuit_closed circuit_open circuit_half_open : CircuitState

-- `inner` is the argument of `complete`. The threshold is an `int` of the configuration, here a
-- number that is not negative.
pub record Breaker : Type 0 where
  pub failure_threshold : ℕ
  pub reset_timeout : ℕ
  pub state : CircuitState
  pub half_open_in_flight : Bool
  pub consecutive_fails : ℕ
  pub last_failure : ℕ

-- The record that NewClient builds: all other fields are Go's zero values.
pub new : ℕ → ℕ → Breaker
new threshold reset = record {
  failure_threshold = threshold;
  reset_timeout = reset;
  state = circuit_closed;
  half_open_in_flight = false;
  consecutive_fails = 0;
  last_failure = 0;
}

abbrev open_error : ℕ → Breaker → Error
open_error now b = breaker_open b.consecutive_fails (b.reset_timeout - (now - b.last_failure))

-- The `switch` of allowRequest, on the state.
dispatch : CircuitState → ℕ → Breaker → Breaker × Option Error
dispatch circuit_closed now b = (b, none)
dispatch circuit_open now b =
    if ltb b.reset_timeout (now - b.last_failure)
    then (record b { state = circuit_half_open; half_open_in_flight = true }, none)
    else (b, some (open_error now b))
dispatch circuit_half_open now b =
    if b.half_open_in_flight
    then (b, some awaiting_probe)
    else (record b { half_open_in_flight = true }, none)

-- allowRequest: `none` lets the request through.
pub allow_request : ℕ → Breaker → Breaker × Option Error
unfolding dispatch
allow_request now b = dispatch b.state now b

-- The threshold that recordResult compares with: 0 stands for 5.
pub threshold : Breaker → ℕ
threshold b = if b.failure_threshold == 0 then 5 else b.failure_threshold

-- recordResult, at an error (`true`) or a success.
pub record_result : ℕ → Bool → Breaker → Breaker
unfolding threshold
record_result now true b =
    let counted = record b {
      consecutive_fails = b.consecutive_fails + 1;
      last_failure = now;
      half_open_in_flight = false;
    } in
    if leb (threshold counted) counted.consecutive_fails
    then record counted { state = circuit_open }
    else counted
record_result now false b = record b {
  consecutive_fails = 0;
  state = circuit_closed;
  half_open_in_flight = false;
}

-- The client interface of internal/llm, as far as a completion goes: `S` is the state of the world
-- that a call reads and changes.
abbrev pub Client : Type 0 → Type 0 → Type 0 → Type 0
Client S Req Resp = S → Req → S × Result Resp

-- Complete, run with no other call in between. `clock` reads the time off the world, before the
-- inner call and after it.
module _ {S Req Resp : Type 0} (inner : Client S Req Resp) (clock : S → ℕ) where
  pub complete : Client (Breaker × S) Req Resp
  unfolding allow_request record_result
  complete (b, s) req =
      let (b', refused) = allow_request (clock s) b in
      let (s', reply) = inner s req in
      elim refused [
        | none ↦ ((record_result (clock s') (is_err reply) b', s'), reply)
        | some e ↦ ((b', s), err e)
      ]
