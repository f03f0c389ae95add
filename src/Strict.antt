-- ===== src/Strict.antt =====
-- Skip of iter_skip.go with the strict skipping of iter_skip_strict.go, which is the one that is
-- built by default.
pub mod Defs
pub mod Grammar
pub mod Dots
pub mod Floats
pub mod Scan
pub mod Number
pub mod Text
pub mod Append
pub mod Value
pub mod Json
pub mod Depth
pub mod Valid
