-- ===== src/RoundTrip.antt =====
-- The readers of iter_int.go and iter_str.go on what the writers append.
pub mod Unsigned
pub mod Signed
pub mod Text
pub mod Field
