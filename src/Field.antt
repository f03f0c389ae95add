-- ===== src/Field.antt =====
-- The hash of a field name: readFieldHash and calcHash of iter_object.go.
pub mod Defs
pub mod Scan
pub mod Hash
