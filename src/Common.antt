-- ===== src/Common.antt =====
-- internal/resources/common: names, URLs and the session lifetime.
pub mod Url
pub mod Names
