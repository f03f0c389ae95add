-- ===== src/Raw.antt =====
-- Raw strings: ReadRawString of iter_str.go and RawString of rawstring.go.
pub mod Defs
pub mod Body
pub mod Decode
pub mod Fill
pub mod Loop
pub mod Marks
