-- ===== src/Sync.antt =====
-- src/sync.rs
pub mod Matching
pub mod World
pub mod Reconcile
pub mod Delete
pub mod Edits
pub mod Run
pub mod Keeps
pub mod Rows
pub mod Worker
