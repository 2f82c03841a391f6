-- ===== src/Cubism.antt =====
-- src/cubism.rs: the shared-memory execution ring between a CPU producer and a GPU executor.
pub mod Types
pub mod Ring
pub mod Slots
pub mod Layout
pub mod Phases
pub mod System
mod Tests
