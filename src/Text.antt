-- ===== src/Text.antt =====
-- Strings: the writers of stream_str.go and the reader of iter_str.go.
pub mod Write
pub mod Read
pub mod Spells
pub mod Print
pub mod Escapes
pub mod Hex
pub mod Unquote
pub mod Loop
pub mod Html
