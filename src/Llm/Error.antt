-- ===== src/Llm/Error.antt =====
-- The errors of internal/llm as values. What the HTTP client of provider.go returns is `upstream`.
use aotanami.Prelude.{ℕ, ◌≡◌, refl, ◌⊎◌, inl, inr, Bool, true, false}

pub data Error : Type 0 where
  -- an error of the provider, by a code
  upstream : ℕ → Error
  -- `ErrCircuitBreakerOpen`, wrapped with the number of failures and the time that remains
  breaker_open : ℕ → ℕ → Error
  -- "circuit breaker HALF-OPEN — awaiting probe result"
  awaiting_probe : Error
  -- "fallback failed: %w (primary: %v)": the first error is wrapped, the second only printed
  fallback_failed : Error → Error → Error

pub data Result {ℓ} (A : Type ℓ) : Type ℓ where
  ok : A → Result A
  err : Error → Result A

-- isCircuitBreakerOpen: `errors.Is` follows the wrapped errors.
unfoldable pub is_circuit_breaker_open : Error → Bool
is_circuit_breaker_open (upstream n) = false
is_circuit_breaker_open (breaker_open fails remaining) = true
is_circuit_breaker_open awaiting_probe = false
is_circuit_breaker_open (fallback_failed wrapped primary) = is_circuit_breaker_open wrapped

abbrev pub is_err {ℓ} : {A : Type ℓ} → Result A → Bool
is_err (ok a) = false
is_err (err e) = true

pub Result-cases {ℓ} :
    {A : Type ℓ} (r : Result A) → ((a : A) × (r ≡ ok a)) ⊎ ((e : Error) × (r ≡ err e))
Result-cases (ok a) = inl (a, refl)
Result-cases (err e) = inr (e, refl)
