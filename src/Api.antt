-- ===== src/Api.antt =====
-- api/v1alpha1: the `SupabaseProject` resource.
pub mod Database
pub mod Auth
pub mod Spec
pub mod Status
pub mod Project
pub mod Schemas
