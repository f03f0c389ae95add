-- ===== src/Struct.antt =====
-- Structs: their decoders and encoders.
pub mod Defs
pub mod General
pub mod Open
pub mod Fields
pub mod Bindings
pub mod Create
pub mod Slots
pub mod Hashed
pub mod Names
pub mod Lookup
pub mod Named
pub mod Whole
pub mod Chosen
pub mod Values
pub mod Encode
pub mod Prints
pub mod RoundTrip
