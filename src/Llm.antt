-- ===== src/Llm.antt =====
-- The LLM client, internal/llm: results, the circuit breaker, the fallback client, the token
-- budget, and the construction of a client from its configuration.
pub mod Error
pub mod Breaker
pub mod Fallback
pub mod Construct
pub mod Budget
pub mod Retry
