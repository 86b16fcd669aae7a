-- ===== src/Llm/Construct/Tests.antt =====
-- NewClient at concrete configurations. Floats are per mille.
use aotanami.Prelude.{ℕ, ◌≡◌, refl, none, some, codes, text_eq, []}
use aotanami.Llm.Construct.{
  text_eq, Config, anthropic, ollama, Built, breaker, with_fallback, built, refused,
  api_key_required, new_client,
}

abbrev hosted : Config ℕ
hosted = record {
  provider = anthropic;
  model = codes "m";
  api_key = codes "k";
  endpoint = [];
  temperature = 100;
  max_tokens = 4096;
  timeout = 30;
  retry = record {
    max_retries = 3;
    initial_backoff = 1;
    max_backoff = 10;
    backoff_multiplier = 2000;
  };
  circuit_breaker = record { failure_threshold = 5; reset_timeout = 30 };
  fallback = some (record {
    provider = ollama;
    model = codes "l";
    endpoint = [];
    api_key = [];
    timeout = 0;
    retry = none;
    circuit_breaker = none;
  });
}

abbrev hosted_client : Built ℕ
hosted_client =
    with_fallback (breaker hosted (codes "https://api.anthropic.com/v1") hosted.circuit_breaker) (
      breaker
        (record hosted { provider = ollama; model = codes "l"; api_key = []; fallback = none })
        (codes "http://localhost:11434/v1") hosted.circuit_breaker)

hosted_is_built : new_client hosted ≡ built hosted_client
unfolding new_client text_eq
hosted_is_built = refl

keyless_is_refused :
    new_client (record hosted { api_key = [] }) ≡ refused (api_key_required anthropic)
unfolding new_client text_eq
keyless_is_refused = refl
