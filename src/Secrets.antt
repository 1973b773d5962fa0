-- ===== src/Secrets.antt =====
-- internal/resources/secrets: credential validation and the generated Secrets.
pub mod OpaqueKey
pub mod Credentials
pub mod Implementation
pub mod Generation
