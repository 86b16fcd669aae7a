-- ===== src/Llm/Construct.antt =====
-- internal/llm/client.go: NewClient, resolveEndpoint and buildFallbackClient. What a constructor
-- builds is a value of `Built`. `F` is float64, which the code only copies.
pub mod Ready
mod Tests
use aotanami.Prelude.{
  ℕ, ◌≡◌, Bool, true, false, not, ◌&&◌, Option, none, some, Text, codes, text_eq, ltb,
  if◌then◌else◌, [],
}

-- Provider is a string: the six constants, and any other.
pub data Provider : Type 0 where
  openrouter openai anthropic azure ollama custom : Provider
  other : Text → Provider

pub record RetryConfig (F : Type 0) : Type 0 where
  pub max_retries : ℕ
  pub initial_backoff : ℕ
  pub max_backoff : ℕ
  pub backoff_multiplier : F

pub record CircuitBreakerConfig : Type 0 where
  pub failure_threshold : ℕ
  pub reset_timeout : ℕ

pub record FallbackConfig (F : Type 0) : Type 0 where
  pub provider : Provider
  pub model : Text
  pub endpoint : Text
  pub api_key : Text
  pub timeout : ℕ
  pub retry : Option (RetryConfig F)
  pub circuit_breaker : Option CircuitBreakerConfig

pub record Config (F : Type 0) : Type 0 where
  pub provider : Provider
  pub model : Text
  pub api_key : Text
  pub endpoint : Text
  pub temperature : F
  pub max_tokens : ℕ
  pub timeout : ℕ
  pub retry : RetryConfig F
  pub circuit_breaker : CircuitBreakerConfig
  pub fallback : Option (FallbackConfig F)

pub data ConfigError : Type 0 where
  api_key_required endpoint_required unknown_provider : Provider → ConfigError
  creating_fallback : ConfigError → ConfigError

pub data Outcome (A : Type 0) : Type 0 where
  built : A → Outcome A
  refused : ConfigError → Outcome A

infixl 5 ◌>>=◌
abbrev pub ◌>>=◌ : {A B : Type 0} → Outcome A → (A → Outcome B) → Outcome B
built a >>= f = f a
refused e >>= f = refused e

-- The circuit breaker around the HTTP client of `cfg` at `endpoint`, and FallbackClient.
pub data Built (F : Type 0) : Type 0 where
  breaker : Config F → Text → CircuitBreakerConfig → Built F
  with_fallback : Built F → Built F → Built F

abbrev is_empty : Text → Bool
is_empty t = text_eq t []

-- defaultEndpoint
abbrev default_endpoint : Text → Text → Text
default_endpoint override fallback = if not (is_empty override) then override else fallback

abbrev required_endpoint : Provider → Text → Outcome Text
required_endpoint p endpoint =
    if is_empty endpoint then refused (endpoint_required p) else built endpoint

-- resolveEndpoint
pub resolve_endpoint : Provider → Text → Outcome Text
resolve_endpoint openrouter e = built (default_endpoint e (codes "https://openrouter.ai/api/v1"))
resolve_endpoint openai e = built (default_endpoint e (codes "https://api.openai.com/v1"))
resolve_endpoint anthropic e = built (default_endpoint e (codes "https://api.anthropic.com/v1"))
resolve_endpoint azure e = required_endpoint azure e
resolve_endpoint ollama e = built (default_endpoint e (codes "http://localhost:11434/v1"))
resolve_endpoint custom e = required_endpoint custom e
resolve_endpoint (other name) e = refused (unknown_provider (other name))

abbrev pub needs_key : Provider → Bool
needs_key ollama = false
needs_key _ = true

-- An optional override.
abbrev pub get_or : {A : Type 0} → Option A → A → A
get_or none d = d
get_or (some a) d = a

module _ {F : Type 0} where
  -- NewClient up to the fallback: all that it does where `cfg.Fallback` is nil.
  pub new_breaker_client : Config F → Outcome (Built F)
  unfolding resolve_endpoint
  new_breaker_client cfg =
      if is_empty cfg.api_key && needs_key cfg.provider
      then refused (api_key_required cfg.provider)
      else do
        endpoint ← resolve_endpoint cfg.provider cfg.endpoint
        built (breaker cfg endpoint cfg.circuit_breaker)

  -- The configuration that buildFallbackClient makes: it has no fallback of its own.
  pub fallback_config : Config F → FallbackConfig F → Config F
  fallback_config cfg fb = record {
    provider = fb.provider;
    model = fb.model;
    api_key = fb.api_key;
    endpoint = fb.endpoint;
    temperature = cfg.temperature;
    max_tokens = cfg.max_tokens;
    timeout = if ltb 0 fb.timeout then fb.timeout else cfg.timeout;
    retry = get_or fb.retry cfg.retry;
    circuit_breaker = get_or fb.circuit_breaker cfg.circuit_breaker;
    fallback = none;
  }

  -- "creating fallback client: %w"
  abbrev wrap : Outcome (Built F) → Outcome (Built F)
  wrap (built c) = built c
  wrap (refused e) = refused (creating_fallback e)

  -- buildFallbackClient
  pub build_fallback_client : Config F → FallbackConfig F → Built F → Outcome (Built F)
  unfolding new_breaker_client fallback_config
  build_fallback_client cfg fb primary = do
    fallback ← wrap (new_breaker_client (fallback_config cfg fb))
    built (with_fallback primary fallback)

  abbrev finish : Config F → Option (FallbackConfig F) → Built F → Outcome (Built F)
  finish cfg none wrapped = built wrapped
  finish cfg (some fb) wrapped = build_fallback_client cfg fb wrapped

  -- NewClient
  pub new_client : Config F → Outcome (Built F)
  unfolding new_breaker_client build_fallback_client
  new_client cfg = do wrapped ← new_breaker_client cfg; finish cfg cfg.fallback wrapped
