-- ===== src/Controller/Apply.antt =====
-- The create-or-update steps of internal/controller/supabaseproject_controller.go, one for each kind.
pub mod Secrets
pub mod Workloads
pub mod Jobs
pub mod Stores
pub mod Laws
pub mod Stored
