-- ===== src/Scanner.antt =====
-- internal/scanner: the scanners, each a function from pods to findings, and their registry.
pub mod Pod
pub mod PodSecurity
pub mod PrivilegeEscalation
pub mod SecurityContexts
pub mod ResourceLimits
pub mod ImagePinning
pub mod SecretsExposure
pub mod NetworkPolicy
pub mod RbacAudit
pub mod Hardened
pub mod Registry
mod Tests
