-- ===== src/Llm/Breaker/Recovery.antt =====
-- An open breaker over time, in calls of Complete that do not overlap.
use aotanami.Prelude.{ℕ, inl, inr, false, ◌+◌, ◌-◌, ◌≤◌, ◌<◌, ◌≡◌, false, arith, if◌then◌else◌}
use aotanami.Llm.Error.{breaker_open, Result-cases, err, is_err}
use aotanami.Llm.Breaker.{Breaker, circuit_closed, circuit_open, threshold, complete, Client}

module _ {S Req Resp : Type 0} (inner : Client S Req Resp) (clock : S → ℕ) (b : Breaker) (s : S)
    (req : Req) (tripped : b.state ≡ circuit_open) where
  -- An open breaker whose reset timeout has not passed answers with the breaker's own error, and
  -- neither it nor the world is changed: the inner client is not called.
  pub complete_too_early :
      clock s ≤ b.last_failure + b.reset_timeout
      → complete inner clock (b, s) req ≡ (
        (b, s),
        err (breaker_open b.consecutive_fails (b.reset_timeout - (clock s - b.last_failure))),
      )
  unfolding complete
  complete_too_early h = ground arith

  -- Once the reset timeout has passed, an open breaker that had counted as many failures as the
  -- threshold calls the inner client and returns its answer. A success closes it with no failure
  -- counted. A failure opens it again, counted, from the time of the answer.
  pub complete_recovers :
      b.last_failure + b.reset_timeout < clock s
      → threshold b ≤ b.consecutive_fails
      → let (s', reply) = inner s req in
        complete inner clock (b, s) req ≡ (
          (
            record b {
              state = if is_err reply then circuit_open else circuit_closed;
              half_open_in_flight = false;
              consecutive_fails = if is_err reply then b.consecutive_fails + 1 else 0;
              last_failure = if is_err reply then clock s' else b.last_failure;
            },
            s',
          ),
          reply,
        )
  unfolding complete threshold
  complete_recovers h t = elim (Result-cases (inner s req).1) [
    | inl (a, e) ↦ ground (arith, e)
    | inr (x, e) ↦ ground (arith, e)
  ]
