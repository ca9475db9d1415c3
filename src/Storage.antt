-- ===== src/Storage.antt =====
-- src/storage.rs over the schema of migrations/0001_cloudflare_records.sql.
-- The tables are lists of rows. Each statement meets the next turn of the server: whether the
-- server answers, and the time that `now()` returns. A statement that fails changes no row.
mod Tables
mod Records
mod Runs
pub mod Finding
pub mod Constraints
pub mod Consistent
pub mod Everywhere
pub mod Steady
pub mod Versions
unfoldable pub use Tables.*
unfoldable pub use Records.*
unfoldable pub use Runs.*
