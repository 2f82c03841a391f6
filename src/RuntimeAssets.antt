-- ===== src/RuntimeAssets.antt =====
-- src/runtime_assets.rs: assets embedded in a running program, kept in a redb image in RAM.
pub mod Backend
pub mod Database
pub mod Transactions
pub mod View
pub mod RoundTrip
pub mod Lookup
pub mod Refine
pub mod Owner
mod Tests
