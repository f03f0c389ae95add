-- ===== src/Array.antt =====
-- ReadArrayCB of iter_array.go, with the callback as a parameter.
pub mod Defs
pub mod Elements
pub mod Whole
