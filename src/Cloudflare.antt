-- ===== src/Cloudflare.antt =====
-- src/cloudflare.rs
pub mod Types
pub mod Client
pub mod Http
