-- ===== src/Cubism/Layout.antt =====
-- Where the slots of a ring lie in the mapping: src/cubism.rs, `from_raw_parts` and the ranges.
pub mod Bounds
