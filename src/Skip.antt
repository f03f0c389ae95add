-- ===== src/Skip.antt =====
-- The literals and the captures of iter_skip.go, arrays, and the sloppy skipping.
pub mod Literal
pub mod Sloppy
pub mod Parity
