-- ===== src/Llm/Budget.antt =====
-- internal/llm/budget.go: token limits over an hour, a day and a month. Every operation holds the
-- lock and reads the clock once (`now`), in nanoseconds. `add_month` is `time.AddDate(0, 1, 0)`.
-- The counters are Go `int`s that are not negative; sums stay far below 2^63.
pub mod Limits
mod Tests
use aotanami.Prelude.{
  ℕ, ◌+◌, ◌*◌, ◌/◌, ◌≡◌, Bool, true, false, Option, none, some, List, [], ◌∷◌, ◌++◌, ltb, leb, ◌==◌,
  ◌&&◌, if◌then◌else◌,
}

pub data Window : Type 0 where
  hourly daily monthly : Window

-- The three fields that the source keeps for a window.
pub record Usage : Type 0 where
  pub limit : ℕ
  pub used : ℕ
  pub reset : ℕ

pub record TokenBudget : Type 0 where
  pub hour : Usage
  pub day : Usage
  pub month : Usage
  pub alert_threshold : ℕ
  -- whether `AlertFunc` is set
  pub alerting : Bool

-- The error of Check: which window, and what it prints.
pub record Exhausted : Type 0 where
  pub window : Window
  pub used : ℕ
  pub limit : ℕ
  pub need : ℕ

abbrev pub hour_ns : ℕ
hour_ns = 3600 * 1000000000

-- One window of resetExpiredWindows; `next` is the new end of the window.
abbrev pub expire : ℕ → ℕ → Usage → Usage
expire now next u = if ltb u.reset now then record u { used = 0; reset = next } else u

abbrev pub exceeds : ℕ → Usage → Bool
exceeds tokens u = ltb 0 u.limit && ltb u.limit (u.used + tokens)

abbrev exhausted : Window → ℕ → Usage → Exhausted
exhausted w tokens u = record { window = w; used = u.used; limit = u.limit; need = tokens }

abbrev pub add_used : ℕ → Usage → Usage
add_used tokens u = record u { used = u.used + tokens }

-- checkAlert: whether AlertFunc is called for the window.
pub check_alert : ℕ → Usage → Bool
check_alert alert_threshold u =
    if u.limit == 0 then false else leb alert_threshold (u.used * 100 / u.limit)

abbrev alert : ℕ → Window → Usage → List Window
alert alert_threshold w u = if check_alert alert_threshold u then w ∷ [] else []

module _ (add_month : ℕ → ℕ) where
  -- NewTokenBudget
  pub new_token_budget : ℕ → ℕ → ℕ → ℕ → ℕ → TokenBudget
  new_token_budget now h d m alert_threshold_pct = record {
    hour = record { limit = h; used = 0; reset = now + hour_ns };
    day = record { limit = d; used = 0; reset = now + 24 * hour_ns };
    month = record { limit = m; used = 0; reset = add_month now };
    alert_threshold = alert_threshold_pct;
    alerting = false;
  }

  -- resetExpiredWindows
  pub reset_expired_windows : ℕ → TokenBudget → TokenBudget
  reset_expired_windows now tb = record tb {
    hour = expire now (now + hour_ns) tb.hour;
    day = expire now (now + 24 * hour_ns) tb.day;
    month = expire now (add_month now) tb.month;
  }

  -- Check: `none` if the tokens fit, and the budget with its expired windows reset.
  pub check : ℕ → ℕ → TokenBudget → TokenBudget × Option Exhausted
  unfolding reset_expired_windows
  check now tokens tb =
      let tb' = reset_expired_windows now tb in
      (
        tb',
        if exceeds tokens tb'.hour
            then some (exhausted hourly tokens tb'.hour)
            else if exceeds tokens tb'.day
            then some (exhausted daily tokens tb'.day)
            else if exceeds tokens tb'.month
            then some (exhausted monthly tokens tb'.month)
            else none,
      )

  -- The calls of AlertFunc that Record makes, in order.
  pub alerts : TokenBudget → List Window
  unfolding check_alert
  alerts tb =
      if tb.alerting && ltb 0 tb.alert_threshold
      then alert tb.alert_threshold hourly tb.hour
        ++ (alert tb.alert_threshold daily tb.day ++ alert tb.alert_threshold monthly tb.month)
      else []

  -- Record
  pub record_tokens : ℕ → ℕ → TokenBudget → TokenBudget × List Window
  unfolding reset_expired_windows alerts
  record_tokens now tokens tb =
      let tb' = reset_expired_windows now tb in
      let counted = record tb' {
        hour = add_used tokens tb'.hour;
        day = add_used tokens tb'.day;
        month = add_used tokens tb'.month;
      } in
      (counted, alerts counted)

  -- Usage
  pub usage : ℕ → TokenBudget → TokenBudget × (ℕ × ℕ × ℕ)
  unfolding reset_expired_windows
  usage now tb =
      let tb' = reset_expired_windows now tb in (tb', (tb'.hour.used, tb'.day.used, tb'.month.used))
