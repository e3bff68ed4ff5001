-- ===== src/Csv.antt =====
-- src/csv.rs: the delimited adapter.
pub mod Options
pub mod Quotes
pub mod Builder
pub mod Core
pub mod Diagnostics
pub mod Scanner
pub mod Process
pub mod Scan
pub mod Plan
pub mod Decoder
pub mod Decode
pub mod Memory
pub mod Estimate
