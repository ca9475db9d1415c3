-- ===== src/Api.antt =====
-- src/api.rs
pub mod Validate
pub mod Handlers
