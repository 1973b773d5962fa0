-- ===== src/Controller.antt =====
-- internal/controller: the reconciler's decisions on existing and desired objects.
pub mod Semantic
pub mod Storage
pub mod Plugins
pub mod Fields
pub mod Recovery
pub mod Ownership
pub mod Readiness
pub mod Defaults
pub mod Effects
pub mod Apply
pub mod State
pub mod Durable
pub mod Backup
pub mod Database
pub mod Builders
pub mod Sources
pub mod Components
pub mod CoreServices
pub mod Credentials
pub mod ProjectSecrets
pub mod Publications
pub mod Powersync
pub mod Reconcile
pub mod Keeps
