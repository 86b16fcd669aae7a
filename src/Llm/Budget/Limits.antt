-- ===== src/Llm/Budget/Limits.antt =====
-- What Check and Record keep.
use native.Mathlib.Decide.{dec_lt}
use native.Mathlib.Nat.{le-div_iff_mul-le}
use aotanami.Prelude.{ℕ, ◌+◌, ◌*◌, ◌≤◌, ◌<◌, ◌≡◌, ◌↔◌, true, none, arith}
use aotanami.Llm.Budget.{
  expire, add_used, Usage, TokenBudget, check_alert, reset_expired_windows, check, record_tokens,
}

-- No window with a limit has used more than it.
abbrev Fits : Usage → Type 0
Fits u = 0 < u.limit → u.used ≤ u.limit

pub record WithinLimits (tb : TokenBudget) : Type 0 where
  pub hour : Fits tb.hour
  pub day : Fits tb.day
  pub month : Fits tb.month

-- Check refuses exactly when, after the expired windows are reset, a window with a limit would
-- pass it.
pub check_iff :
    (add_month : ℕ → ℕ) (now tokens : ℕ) (tb : TokenBudget)
    → let tb' = reset_expired_windows add_month now tb in
      ((check add_month now tokens tb).1 ≡ none) ↔ (
        (0 < tb'.hour.limit → tb'.hour.used + tokens ≤ tb'.hour.limit)
        × (0 < tb'.day.limit → tb'.day.used + tokens ≤ tb'.day.limit)
        × (0 < tb'.month.limit → tb'.month.used + tokens ≤ tb'.month.limit))
unfolding check
check_iff add_month now tokens tb = ground arith

-- One window: what fits now still fits when it is recorded, the window reset or not.
add_used-Fits :
    (u : Usage) (later next tokens actual : ℕ)
    → (0 < u.limit → u.used + tokens ≤ u.limit)
    → actual ≤ tokens
    → Fits (add_used actual (expire later next u))
add_used-Fits u later next tokens actual fits h = ground arith

module _ (add_month : ℕ → ℕ) (now later tokens actual : ℕ) (tb : TokenBudget) where
  -- A request that Check lets through, and whose recorded use is at most what was checked, leaves
  -- every limited window within its limit, however much later Record is called, if no other Record
  -- comes between the two.
  pub check-record_tokens-WithinLimits :
      (check add_month now tokens tb).1 ≡ none
      → actual ≤ tokens
      → WithinLimits (record_tokens add_month later actual (check add_month now tokens tb).0).0
  unfolding check record_tokens
  check-record_tokens-WithinLimits passed h =
      let tb' = reset_expired_windows add_month now tb in
      let (hour, day, month) = (check_iff add_month now tokens tb).0 passed in
      record {
        hour = add_used-Fits tb'.hour later _ tokens actual hour h;
        day = add_used-Fits tb'.day later _ tokens actual day h;
        month = add_used-Fits tb'.month later _ tokens actual month h;
      }

-- The rounded-down percentage of checkAlert compares as the exact ratio does.
pub check_alert_iff :
    (percent : ℕ) (u : Usage)
    → (check_alert percent u ≡ true) ↔ ((0 < u.limit) × (percent * u.limit ≤ u.used * 100))
unfolding check_alert
check_alert_iff percent u = elim (dec_lt 0 u.limit) [
  | yes h ↦ ground (arith, le-div_iff_mul-le {k = u.limit} {x = percent} {y = u.used * 100} h)
  | no h ↦ ground arith
]

-- When a month does not end before it begins, resetting the expired windows twice at the same time
-- is resetting them once.
pub reset_expired_windows_idem :
    (add_month : ℕ → ℕ) (now : ℕ) (tb : TokenBudget)
    → now ≤ add_month now
    → reset_expired_windows add_month now (reset_expired_windows add_month now tb)
      ≡ reset_expired_windows add_month now tb
unfolding reset_expired_windows
reset_expired_windows_idem add_month now tb h = ground arith
