-- ===== src/Catalog.antt =====
-- src/glTFredb.rs: the durable catalog of imported assets, their tracking and derived artifacts.
pub mod Types
pub mod Keys
pub mod Reading
pub mod Tracking
pub mod Derived
pub mod Blobs
pub mod Import
mod Tests
