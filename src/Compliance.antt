-- ===== src/Compliance.antt =====
-- internal/compliance/framework.go: the evaluation of a framework's controls against findings.
pub mod Model
pub mod Controls
pub mod Evaluate
