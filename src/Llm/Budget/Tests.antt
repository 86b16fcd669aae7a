-- ===== src/Llm/Budget/Tests.antt =====
-- The token budget at concrete inputs.
use aotanami.Prelude.{ℕ, ◌+◌, ◌*◌, ◌≡◌, refl, true, none, [], ◌∷◌, arith}
use aotanami.Llm.Budget.{TokenBudget, hourly, daily, check, record_tokens}
use aotanami.Llm.Budget.Limits.{WithinLimits, check-record_tokens-WithinLimits}

abbrev thirty_days : ℕ → ℕ
thirty_days t = t + 30 * 24 * 3600 * 1000000000

-- 100 tokens an hour, 150 a day, no limit on a month, and an alert at 80 %.
abbrev fresh : TokenBudget
fresh = record {
  hour = record { limit = 100; used = 0; reset = 3600 * 1000000000 };
  day = record { limit = 150; used = 70; reset = 24 * 3600 * 1000000000 };
  month = record { limit = 0; used = 0; reset = 30 * 24 * 3600 * 1000000000 };
  alert_threshold = 80;
  alerting = true;
}

both_alert : (record_tokens thirty_days 1 80 fresh).1 ≡ hourly ∷ daily ∷ []
unfolding record_tokens
both_alert = refl

fresh_fits : (check thirty_days 1 80 fresh).1 ≡ none
unfolding check
fresh_fits = refl

check-record_tokens-WithinLimits_example :
    WithinLimits (record_tokens thirty_days 2 75 (check thirty_days 1 80 fresh).0).0
check-record_tokens-WithinLimits_example =
    check-record_tokens-WithinLimits thirty_days 1 2 80 75 fresh fresh_fits (omega arith)
