-- ===== src/Llm/Construct/Ready.antt =====
-- The clients that NewClient hands out.
use aotanami.Prelude.{
  ◌&&◌, ◌∷◌, Bool-cases, ℕ, ◌≡◌, ◌≢◌, ◌⊎◌, inl, inr, false, Option, none, some, Text, text_eq_iff,
  arith, [],
}
use aotanami.Llm.Construct.{
  text_eq, wrap, finish, required_endpoint, default_endpoint, ◌>>=◌, openrouter, openai, anthropic,
  azure, ollama, custom, other, Provider, Config, FallbackConfig, Built, breaker, with_fallback,
  Outcome, built, refused, resolve_endpoint, needs_key, new_breaker_client, fallback_config,
  build_fallback_client, new_client,
}

-- Each circuit breaker of the client has an endpoint, and a key if its provider needs one.
abbrev pub IsReady : {F : Type 0} → Built F → Type 0
IsReady (breaker cfg endpoint cb) =
    (endpoint ≢ []) × ((cfg.api_key ≢ []) ⊎ (needs_key cfg.provider ≡ false))
IsReady (with_fallback p f) = IsReady p × IsReady f

-- `P` holds of what was built, if anything was.
abbrev Ensures : {A : Type 0} → (A → Type 0) → Outcome A → Type 0
Ensures P (built a) = P a
Ensures P (refused e) = Unit

Ensures->>= :
    {A B : Type 0} (P : A → Type 0) (Q : B → Type 0) (m : Outcome A) (f : A → Outcome B)
    → Ensures P m
    → ((a : A) → P a → Ensures Q (f a))
    → Ensures Q (m >>= f)
Ensures->>= P Q (built a) f h k = k a h
Ensures->>= P Q (refused e) f h k = tt

Ensures-elim :
    {A : Type 0} (P : A → Type 0) (m : Outcome A) {a : A} → Ensures P m → m ≡ built a → P a
Ensures-elim P m h e = rw e at h

default_endpoint-ne-nil :
    (override : Text) (c : ℕ) (t : Text) → default_endpoint override (c ∷ t) ≢ []
default_endpoint-ne-nil o c t = ground (arith, text_eq_iff o [])

required_endpoint-ne-nil : (p : Provider) (e : Text) → Ensures (λ t. t ≢ []) (required_endpoint p e)
required_endpoint-ne-nil p e = elim (Bool-cases (text_eq e [])) [
  | inl h ↦ rw h tt
  | inr h ↦ rw h (ground (arith, text_eq_iff e []))
]

resolve_endpoint-ne-nil : (p : Provider) (e : Text) → Ensures (λ t. t ≢ []) (resolve_endpoint p e)
unfolding resolve_endpoint
resolve_endpoint-ne-nil openrouter e = default_endpoint-ne-nil e _ _
resolve_endpoint-ne-nil openai e = default_endpoint-ne-nil e _ _
resolve_endpoint-ne-nil anthropic e = default_endpoint-ne-nil e _ _
resolve_endpoint-ne-nil azure e = required_endpoint-ne-nil azure e
resolve_endpoint-ne-nil ollama e = default_endpoint-ne-nil e _ _
resolve_endpoint-ne-nil custom e = required_endpoint-ne-nil custom e
resolve_endpoint-ne-nil (other name) e = tt

has_key :
    (key : Text) (p : Provider)
    → (text_eq key [] && needs_key p) ≡ false
    → (key ≢ []) ⊎ (needs_key p ≡ false)
has_key key p h = ground (arith, text_eq_iff key [])

module _ {F : Type 0} where
  new_breaker_client-IsReady : (cfg : Config F) → Ensures IsReady (new_breaker_client cfg)
  unfolding new_breaker_client
  new_breaker_client-IsReady cfg =
      elim (Bool-cases (text_eq cfg.api_key [] && needs_key cfg.provider)) [
        | inl e ↦ rw e tt
        | inr e ↦ rw e (
            Ensures->>= (λ t. t ≢ []) IsReady (resolve_endpoint cfg.provider cfg.endpoint) _
              (resolve_endpoint-ne-nil cfg.provider cfg.endpoint)
              (λ t ne. (ne, has_key cfg.api_key cfg.provider e)))
      ]

  wrap-Ensures : (P : Built F → Type 0) (m : Outcome (Built F)) → Ensures P m → Ensures P (wrap m)
  wrap-Ensures P (built c) h = h
  wrap-Ensures P (refused e) h = tt

  finish-IsReady :
      (cfg : Config F) (fb : Option (FallbackConfig F)) (p : Built F)
      → IsReady p
      → Ensures IsReady (finish cfg fb p)
  unfolding build_fallback_client
  finish-IsReady cfg none p r = r
  finish-IsReady cfg (some fb) p r =
      let inner = new_breaker_client (fallback_config cfg fb) in
      Ensures->>= IsReady IsReady (wrap inner) _
        (wrap-Ensures IsReady inner (new_breaker_client-IsReady (fallback_config cfg fb)))
        (λ c ready. (r, ready))

  -- Every client that NewClient returns is ready, the fallback included: no breaker in it is
  -- without an endpoint, and none without a key unless its provider is Ollama.
  pub new_client-IsReady : (cfg : Config F) {c : Built F} → new_client cfg ≡ built c → IsReady c
  unfolding new_client
  new_client-IsReady cfg {c} h =
      Ensures-elim IsReady (new_client cfg)
        (Ensures->>= IsReady IsReady (new_breaker_client cfg) _ (new_breaker_client-IsReady cfg)
          (finish-IsReady cfg cfg.fallback))
        h
