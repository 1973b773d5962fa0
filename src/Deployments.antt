-- ===== src/Deployments.antt =====
-- internal/resources/deployments: the workloads' environment and probes.
pub mod GoTrueEnv
pub mod AuthEnv
pub mod Helpers
pub mod Meta
pub mod Rest
pub mod Auth
pub mod Reach
