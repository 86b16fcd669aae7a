-- ===== src/Llm/Retry/Tests.antt =====
-- A provider that is overloaded twice, and one that is never there.
use aotanami.Prelude.{some, Option, ◌≡◌, refl, [], none, codes, Text, ℕ, zero, suc, ◌+◌, ◌*◌}
use aotanami.Llm.Construct.{RetryConfig}
use aotanami.Llm.Retry.{
  canceled, Reply, answered, refused, api_error, failed, retries_exhausted, execute_with_retry,
  retry, max_retries, is_non_retryable, parse_retry_after, do_request, replied,
}
use aotanami.Llm.Retry.Rounds.{scripted, Ends, execute_with_retry-Ends}

abbrev config : RetryConfig ℕ
config = record { max_retries = 2; initial_backoff = 0; max_backoff = 0; backoff_multiplier = 2 }

abbrev overloaded : ℕ → Reply Text
overloaded zero = refused (api_error 429 [] 3)
overloaded (suc zero) = refused (api_error 503 [] 0)
overloaded (suc (suc n)) = answered (codes "yes")

abbrev gone : ℕ → Reply Text
gone i = refused (failed [])

abbrev scale : ℕ → ℕ → ℕ
scale m b = m * b

abbrev jitter : ℕ → ℕ → ℕ
jitter b i = b + i

-- The context is never done, or is done in the second wait.
abbrev patient : ℕ → Option Text
patient i = none

abbrev hurried : ℕ → Option Text
hurried (suc (suc i)) = some (codes "context deadline exceeded")
hurried _ = none

execute_with_retry-Ends_example :
    Ends overloaded hurried
      (max_retries config scale (scripted overloaded hurried jitter))
      (execute_with_retry config scale (scripted overloaded hurried jitter) 0)
execute_with_retry-Ends_example = execute_with_retry-Ends config scale overloaded hurried jitter

given_up :
    execute_with_retry config scale (scripted overloaded hurried jitter) 0
    ≡ (2, refused (canceled (codes "context deadline exceeded")))
unfolding execute_with_retry retry max_retries is_non_retryable
given_up = refl

third_time :
    execute_with_retry config scale (scripted overloaded patient jitter) 0
    ≡ (3, answered (codes "yes"))
unfolding execute_with_retry retry max_retries is_non_retryable
third_time = refl

unreachable :
    execute_with_retry config scale (scripted gone patient jitter) 0
    ≡ (3, refused (retries_exhausted 2 (failed [])))
unfolding execute_with_retry retry max_retries is_non_retryable
unreachable = refl

-- An integer of seconds, and a number of them that does not fit into a duration.
two_seconds : parse_retry_after (λ s. none) 0 (codes " +2 ") ≡ 2000000000
unfolding parse_retry_after
two_seconds = refl

too_long : parse_retry_after (λ s. none) 0 (codes "10000000000") ≡ 0
unfolding parse_retry_after
too_long = refl

bad_key :
    do_request (λ s. none) (λ s. none) 0 (replied 401 [] (codes "no"))
    ≡ refused (api_error 401 (codes "no") 0)
unfolding do_request
bad_key = refl
