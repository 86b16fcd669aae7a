-- ===== src/Llm/Breaker/Invariant.antt =====
-- The breaker shared by concurrent calls of Complete: allowRequest and recordResult each hold the
-- lock, and any number of them interleave.
use aotanami.Prelude.{
  ℕ, zero, suc, ◌+◌, ◌-◌, ◌≤◌, ◌<◌, ◌≡◌, ◌≢◌, ◌↔◌, Bool, true, false, none, some, List, [], ◌∷◌,
  arith, length, take, all,
}
use aotanami.Llm.Error.{Error, awaiting_probe}
use aotanami.Llm.Breaker.{
  Breaker, circuit_closed, circuit_half_open, new, allow_request, record_result, threshold,
}

-- The breaker, the number of requests that were let through and have not returned, and whether
-- each request that has returned failed, the newest first.
pub record System : Type 0 where
  pub breaker : Breaker
  pub pending : ℕ
  pub failures : List Bool

abbrev pub start : ℕ → ℕ → System
start thr reset = record { breaker = new thr reset; pending = 0; failures = [] }

pub data Step (s : System) : System → Type 0 where
  admit :
      (now : ℕ)
      → (allow_request now s.breaker).1 ≡ none
      → Step s (record s { breaker = (allow_request now s.breaker).0; pending = s.pending + 1 })
  refuse :
      (now : ℕ) {e : Error}
      → (allow_request now s.breaker).1 ≡ some e
      → Step s (record s { breaker = (allow_request now s.breaker).0 })
  finish :
      (now : ℕ) (failed : Bool)
      → 0 < s.pending
      → Step s (record {
        breaker = record_result now failed s.breaker;
        pending = s.pending - 1;
        failures = failed ∷ s.failures;
      })

pub data Reach (s : System) : System → Type 0 where
  here : Reach s s
  next : {t u : System} → Reach s t → Step t u → Reach s u

-- How many of the newest requests failed in a row.
abbrev pub failed_in_a_row : List Bool → ℕ
failed_in_a_row [] = 0
failed_in_a_row (true ∷ rs) = suc (failed_in_a_row rs)
failed_in_a_row (false ∷ rs) = 0

pub record Inv (s : System) : Type 0 where
  pub counted : s.breaker.consecutive_fails ≡ failed_in_a_row s.failures
  pub below : s.breaker.state ≡ circuit_closed → s.breaker.consecutive_fails < threshold s.breaker
  pub above : s.breaker.state ≢ circuit_closed → threshold s.breaker ≤ s.breaker.consecutive_fails
  pub probing : s.breaker.state ≡ circuit_half_open → s.breaker.half_open_in_flight ≡ true
  pub waited_for : s.breaker.half_open_in_flight ≡ true → 0 < s.pending

pub start-Inv : (thr reset : ℕ) → Inv (start thr reset)
unfolding new threshold
start-Inv thr reset = ground arith

pub Step-Inv : {s t : System} → Step s t → Inv s → Inv t
unfolding allow_request record_result threshold
Step-Inv (admit now h) i = ground arith
Step-Inv (refuse now h) i = ground arith
Step-Inv (finish now failed h) i = ground arith

pub Reach-Inv : {s t : System} → Reach s t → Inv s → Inv t
Reach-Inv here i = i
Reach-Inv (next r st) i = Step-Inv st (Reach-Inv r i)

failed_in_a_row_iff :
    (n : ℕ) (rs : List Bool)
    → (n ≤ failed_in_a_row rs) ↔ ((n ≤ length rs) × (all (λ r. r) (take n rs) ≡ true))
failed_in_a_row_iff zero rs = ground arith
failed_in_a_row_iff (suc n) [] = ground arith
failed_in_a_row_iff (suc n) (true ∷ rs) = ground (arith, failed_in_a_row_iff n rs)
failed_in_a_row_iff (suc n) (false ∷ rs) = ground arith

-- However the calls interleave, the breaker that NewClient built has left the closed state exactly
-- when the newest results, as many as the threshold, are all failures.
pub trips_exactly_on_failures :
    (thr reset : ℕ) {s : System}
    → Reach (start thr reset) s
    → (s.breaker.state ≢ circuit_closed) ↔ (
        (threshold s.breaker ≤ length s.failures)
        × (all (λ r. r) (take (threshold s.breaker) s.failures) ≡ true))
trips_exactly_on_failures thr reset {s} r =
    let i = Reach-Inv r (start-Inv thr reset) in
    let (to, from) = failed_in_a_row_iff (threshold s.breaker) s.failures in
    (
      λ h. to (omega (arith, i.above h, i.counted)),
      λ h e. absurd (omega (arith, from h, i.below e, i.counted)),
    )

-- However the calls interleave, a half-open breaker refuses every request and is not changed by it.
pub half_open_refuses :
    (thr reset now : ℕ) {s : System}
    → Reach (start thr reset) s
    → s.breaker.state ≡ circuit_half_open
    → allow_request now s.breaker ≡ (s.breaker, some awaiting_probe)
unfolding allow_request
half_open_refuses thr reset now {s} r e =
    ground (arith, (Reach-Inv r (start-Inv thr reset)).probing e)

-- However the calls interleave, when every request that was let through has returned, the breaker
-- is not half-open: it does not wait for a probe that is over.
pub idle-ne-half_open :
    (thr reset : ℕ) {s : System}
    → Reach (start thr reset) s
    → s.pending ≡ 0
    → s.breaker.state ≢ circuit_half_open
idle-ne-half_open thr reset {s} r idle e =
    let i = Reach-Inv r (start-Inv thr reset) in
    absurd (omega (arith, i.waited_for (i.probing e), idle))
