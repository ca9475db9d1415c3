-- ===== src/Net.antt =====
-- Numbers and addresses of Rust's standard library, as the source uses them.
pub mod Numbers
pub mod Ipv4
pub mod Ipv6
