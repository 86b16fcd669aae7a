-- ===== src/Llm/Fallback.antt =====
-- internal/llm/fallback.go: a primary client and one that takes over while its breaker is open.
mod Tests
use aotanami.Prelude.{
  ℕ, ◌+◌, ◌-◌, ◌≤◌, ◌≡◌, Bool, true, false, Option, none, some, arith, if◌then◌else◌, inl, inr,
}
use aotanami.Llm.Error.{
  Error, fallback_failed, breaker_open, Result, ok, err, is_circuit_breaker_open, Result-cases,
}
use aotanami.Llm.Breaker.{Breaker, circuit_open, Client, complete}
use aotanami.Llm.Breaker.Recovery.{complete_too_early}

module _ {P F Req Resp : Type 0} (primary : Client P Req Resp) (fallback : Client F Req Resp) where
  -- The answer of the fallback, behind the primary's error.
  abbrev take_over : Error → P → F → Req → (P × F) × Result Resp
  take_over e p f req =
      let (f', reply) = fallback f req in
      elim reply [ ok a ↦ ((p, f'), ok a) | err e' ↦ ((p, f'), err (fallback_failed e' e)) ]

  -- Complete of FallbackClient.
  pub complete_with_fallback : Client (P × F) Req Resp
  complete_with_fallback (p, f) req =
      let (p', reply) = primary p req in
      elim reply [
        | ok a ↦ ((p', f), ok a)
        | err e ↦ if is_circuit_breaker_open e then take_over e p' f req else ((p', f), err e)
      ]

  -- When the primary answers, or fails with an error that is not its open breaker, the result is
  -- the primary's and the fallback is not called.
  pub fallback_is_spared :
      (p : P) (f : F) (req : Req)
      → ((e : Error) → (primary p req).1 ≡ err e → is_circuit_breaker_open e ≡ false)
      → complete_with_fallback (p, f) req ≡ (((primary p req).0, f), (primary p req).1)
  unfolding complete_with_fallback
  fallback_is_spared p f req h = elim (Result-cases (primary p req).1) [
    | inl (a, e) ↦ ground (arith, e)
    | inr (x, e) ↦ ground (arith, e, h x e)
  ]

-- With a circuit breaker around the primary, open and within its reset timeout, a request goes to
-- the fallback alone: the breaker and the primary's world do not change, an answer of the fallback
-- is returned as it is, and an error of it is returned wrapped.
pub outage_is_bridged :
    {S F Req Resp : Type 0} (inner : Client S Req Resp) (clock : S → ℕ)
    (fallback : Client F Req Resp) (b : Breaker) (s : S) (f : F) (req : Req)
    → b.state ≡ circuit_open
    → clock s ≤ b.last_failure + b.reset_timeout
    → let (f', reply) = fallback f req in
      complete_with_fallback (complete inner clock) fallback ((b, s), f) req ≡ (
        ((b, s), f'),
        elim reply [
          | ok a ↦ ok a
          | err e ↦ err (
              fallback_failed e
                (breaker_open b.consecutive_fails (b.reset_timeout - (clock s - b.last_failure))))
        ],
      )
unfolding complete_with_fallback is_circuit_breaker_open
outage_is_bridged inner clock fallback b s f req tripped early =
    let refused = complete_too_early inner clock b s req tripped early in
    elim (Result-cases (fallback f req).1) [
      | inl (a, e) ↦ ground (arith, refused, e)
      | inr (x, e) ↦ ground (arith, refused, e)
    ]

-- NewFallbackClient: without a fallback the primary is returned.
pub data Wrapped (C : Type 0) : Type 0 where
  plain : C → Wrapped C
  with_fallback : C → C → Wrapped C

pub new_fallback_client : {C : Type 0} → C → Option C → Wrapped C
new_fallback_client primary none = plain primary
new_fallback_client primary (some fallback) = with_fallback primary fallback
