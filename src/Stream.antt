-- ===== src/Stream.antt =====
-- The Stream of stream.go and the integer writers of stream_int.go.
pub mod Defs
pub mod Integers
pub mod Decimal
pub mod Conserve
