-- ===== src/Remediation.antt =====
-- The remediation engine, internal/remediation/engine.go: what the LLM proposes, what of it is
-- let through, and the engine that turns it into a pull request.
pub mod Model
pub mod Paths
pub mod Json
pub mod Fixes
pub mod Branch
pub mod Apply
