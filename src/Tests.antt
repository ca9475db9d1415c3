-- ===== src/Tests.antt =====
-- Runs of the model on concrete inputs, and the theorems at concrete data.
mod Fixtures
mod Careful
mod Addresses
mod Inputs
mod Edits
mod Reconciles
mod Deletions
mod Syncs
mod Services
mod Twice
mod Listings
mod Signing
mod Starts
mod Recoveries
mod Gauges
mod Panics
