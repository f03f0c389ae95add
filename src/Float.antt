-- ===== src/Float.antt =====
-- The float readers of iter_float.go.
pub mod Defs
pub mod Bytes
pub mod Whole
pub mod Fast
pub mod Reads
