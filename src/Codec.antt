-- ===== src/Codec.antt =====
-- The codecs of values: reflect_native.go, reflect_slice.go, reflect_array.go, reflect_optional.go.
pub mod Defs
pub mod Native
pub mod Reads
pub mod Flat
pub mod Slice
pub mod RoundTrip
pub mod Map
pub mod Texts
pub mod Maps
pub mod MapTrip
