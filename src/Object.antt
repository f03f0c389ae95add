-- ===== src/Object.antt =====
-- The readers of whole objects in iter_object.go.
pub mod Defs
pub mod Buffered
pub mod Fields
pub mod Names
