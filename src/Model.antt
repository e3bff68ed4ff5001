-- ===== src/Model.antt =====
-- src/model.rs: the parts of the shared model that the delimited adapter produces and reads.
pub mod Range
pub mod Schema
pub mod Strings
pub mod Batch
pub mod Slices
pub mod Pool
pub mod Types
pub mod Layout
pub mod Typed
pub mod Convert
