-- ===== src/Excel.antt =====
-- crates/tabulark-excel-wasm: the ranges of a source that the workbook adapter has read, and the
-- directory of a ZIP package.
pub mod Segments
pub mod Host
pub mod Ranges
pub mod Missing
pub mod Reader
pub mod Zip
