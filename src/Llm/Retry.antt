-- ===== src/Llm/Retry.antt =====
-- internal/llm/provider.go: the HTTP client behind a breaker. `W` is the state of the world. The
-- transport, the JSON decoder, the random jitter, the product with the multiplier and http.ParseTime
-- are parameters; the headers and the body of a request are left out.
pub mod Rounds
mod Tests
use aotanami.Llm.Construct.{RetryConfig}
use aotanami.Prelude.{
  false, drop, not, min, has_prefix, ◌+◌, [], text_eq, ◌++◌, ltb, zero, ◌∷◌, ◌&&◌, ◌==◌, ◌*◌, ◌-◌,
  none, some, trim_space, if◌then◌else◌, leb, codes, suc, ◌%◌, ℕ, Option, List, Bool, Text,
}

-- An error of doRequest or of executeWithRetry. `failed` is any error but an APIError.
pub data CallError : Type 0 where
  api_error : ℕ → Text → ℕ → CallError
  failed : Text → CallError
  canceled : Text → CallError
  retries_exhausted : ℕ → CallError → CallError

pub data Reply (A : Type 0) : Type 0 where
  answered : A → Reply A
  refused : CallError → Reply A

-- What the transport gives: the status, the Retry-After header and the body, or an error.
pub data HttpReply : Type 0 where
  request_failed : Text → HttpReply
  read_failed : Text → HttpReply
  replied : ℕ → Text → Text → HttpReply

-- openAIChatResponse: the message of its error, and its choices with their finish reasons.
pub record ChatResponse : Type 0 where
  pub model : Text
  pub choices : List (Text × Text)
  pub total_tokens : ℕ
  pub error : Option Text

-- Response
pub record Response : Type 0 where
  pub content : Text
  pub model : Text
  pub total_tokens : ℕ
  pub finish_reason : Text

-- strconv.Atoi of a number without a sign; more than 63 bits are an error.
abbrev digit_value : ℕ → Option ℕ
digit_value c = if leb b'0' c && leb c b'9' then some (c - b'0') else none

abbrev digits_value : ℕ → Text → Option ℕ
digits_value n [] = some n
digits_value n (c ∷ s) = elim (digit_value c) [ none ↦ none | some d ↦ digits_value (n * 10 + d) s ]

abbrev in_range : Option ℕ → Option ℕ
in_range none = none
in_range (some n) = if ltb n 9223372036854775808 then some n else none

abbrev unsigned_value : Text → Option ℕ
unsigned_value [] = none
unsigned_value (c ∷ s) = in_range (digits_value 0 (c ∷ s))

-- A time.Duration that is positive, of an int64 by its bit pattern, and else 0.
abbrev positive_duration : ℕ → ℕ
positive_duration n =
    let bits = n % 18446744073709551616 in if ltb bits 9223372036854775808 then bits else 0

module _ (parse_time : Text → Option ℕ) where
  abbrev until : ℕ → Option ℕ → ℕ
  until now none = 0
  until now (some t) = t - now

  abbrev seconds_or_date : ℕ → Text → Option ℕ → ℕ
  seconds_or_date now val none = until now (parse_time val)
  seconds_or_date now val (some zero) = until now (parse_time val)
  seconds_or_date now val (some (suc n)) = positive_duration (suc n * 1000000000)

  -- parseRetryAfter, as far as its result is read: a duration that is not positive is 0.
  unfoldable pub parse_retry_after : ℕ → Text → ℕ
  unfolding trim_space text_eq has_prefix
  parse_retry_after now val =
      let trimmed = trim_space val in
      let unsigned = if has_prefix trimmed (codes "+") then drop 1 trimmed else trimmed in
      if text_eq trimmed [] then 0 else seconds_or_date now trimmed (unsigned_value unsigned)

  module _ (decode : Text → Option ChatResponse) where
    abbrev chosen : ChatResponse → List (Text × Text) → Reply Response
    chosen r [] = refused (failed (codes "llm: empty response (no choices returned)"))
    chosen r ((content, finish_reason) ∷ rest) = answered (record {
      content = content;
      model = r.model;
      total_tokens = r.total_tokens;
      finish_reason = finish_reason;
    })

    abbrev decoded : Option ChatResponse → Reply Response
    decoded none = refused (failed (codes "llm: unmarshal response"))
    decoded (some r) = elim r.error [
      | none ↦ chosen r r.choices
      | some m ↦ refused (api_error 200 m 0)
    ]

    -- doRequest, from the transport's reply on.
    unfoldable pub do_request : ℕ → HttpReply → Reply Response
    unfolding parse_retry_after
    do_request now (request_failed e) = refused (failed (codes "llm: HTTP request failed: " ++ e))
    do_request now (read_failed e) = refused (failed (codes "llm: read response: " ++ e))
    do_request now (replied status retry_after body) =
        let wait = if status == 429 then parse_retry_after now retry_after else 0 in
        if status == 200 then decoded (decode body) else refused (api_error status body wait)

-- isNonRetryable
unfoldable pub is_non_retryable : CallError → Bool
is_non_retryable (api_error status body retry_after) =
    leb 400 status && ltb status 500 && not (status == 429)
is_non_retryable (failed e) = false
is_non_retryable (canceled e) = false
is_non_retryable (retries_exhausted n e) = false

-- The effects of a retry: a request; the wait, with the error of a context that is done; and the
-- jittered backoff.
pub record Transport (W A : Type 0) : Type 0 where
  pub request : W → W × Reply A
  pub wait : ℕ → W → W × Option Text
  pub jitter : ℕ → W → ℕ

module _ {F W A : Type 0} (config : RetryConfig F) (scale : F → ℕ → ℕ) (t : Transport W A) where
  pub max_retries : ℕ
  max_retries = if config.max_retries == 0 then 3 else config.max_retries

  pub initial_backoff : ℕ
  initial_backoff = if config.initial_backoff == 0 then 500 * 1000000 else config.initial_backoff

  -- nextBackoff; `scale` multiplies by the multiplier, or by 2 if that is 0.
  pub next_backoff : ℕ → ℕ
  next_backoff current =
      let max_backoff = if config.max_backoff == 0 then 10 * 1000000000 else config.max_backoff in
      min (scale config.backoff_multiplier current) max_backoff

  -- The wait before a retry, by the last error.
  abbrev pub wait_of : CallError → ℕ → W → ℕ
  wait_of (api_error status body retry_after) backoff w =
      if ltb 0 retry_after then retry_after else t.jitter backoff w
  wait_of (failed e) backoff w = t.jitter backoff w
  wait_of (canceled e) backoff w = t.jitter backoff w
  wait_of (retries_exhausted n e) backoff w = t.jitter backoff w

  -- The end of a round: it returns, or `again` starts the next one.
  abbrev pub after_reply : (CallError → W → W × Reply A) → W × Reply A → W × Reply A
  after_reply again (w, answered a) = (w, answered a)
  after_reply again (w, refused e) =
      let next = again e w in if is_non_retryable e then (w, refused e) else next

  abbrev pub after_wait : (W → W × Reply A) → W × Option Text → W × Reply A
  after_wait go (w, none) = go w
  after_wait go (w, some e) = (w, refused (canceled e))

  -- The rounds that are left after an error.
  pub retry : ℕ → ℕ → CallError → W → W × Reply A
  unfolding max_retries next_backoff
  retry zero backoff last w = (w, refused (retries_exhausted max_retries last))
  retry (suc n) backoff last w =
      after_wait (λ w'. after_reply (retry n (next_backoff backoff)) (t.request w'))
        (t.wait (wait_of last backoff w) w)

  -- executeWithRetry
  unfoldable pub execute_with_retry : W → W × Reply A
  unfolding retry initial_backoff
  execute_with_retry w = after_reply (retry max_retries initial_backoff) (t.request w)
