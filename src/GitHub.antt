-- ===== src/GitHub.antt =====
-- internal/github/engine.go, the GitOps engine that talks to GitHub: the paths of the contents API,
-- and the requests that CreatePullRequest and ListOpenPRs make.
pub mod Paths
pub mod Engine
mod Tests
