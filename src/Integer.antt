-- ===== src/Integer.antt =====
-- The integer readers of iter_int.go.
pub mod Defs
pub mod Digits
pub mod Fast
pub mod Value
pub mod Sized
pub mod Overflow
