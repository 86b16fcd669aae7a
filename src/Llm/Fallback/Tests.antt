-- ===== src/Llm/Fallback/Tests.antt =====
-- The fallback client at concrete inputs.
use aotanami.Prelude.{ℕ, ◌+◌, ◌≡◌, false, arith}
use aotanami.Llm.Error.{Error, upstream, ok, err, is_circuit_breaker_open}
use aotanami.Llm.Breaker.{Breaker, circuit_open, Client}

abbrev local : Client ℕ ℕ ℕ
local s req = (s + 1, ok req)

abbrev failing : Client ℕ ℕ ℕ
failing s req = (s + 1, err (upstream 500))

failing_is_upstream : (e : Error) → (failing 0 9).1 ≡ err e → is_circuit_breaker_open e ≡ false
unfolding is_circuit_breaker_open
failing_is_upstream e h = ground arith

abbrev tripped : Breaker
tripped = record {
  failure_threshold = 2;
  reset_timeout = 30;
  state = circuit_open;
  half_open_in_flight = false;
  consecutive_fails = 2;
  last_failure = 2;
}
