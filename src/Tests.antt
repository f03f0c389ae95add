-- ===== src/Tests.antt =====
-- Every theorem with a hypothesis at one concrete input.
pub mod Inputs
pub mod Reading
pub mod Objects
pub mod Numbers
pub mod Skipping
pub mod Writing
pub mod Codecs
pub mod Structs
