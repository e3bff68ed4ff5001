-- ===== src/Lib.antt =====
-- tabulark reads tables: an incremental engine for delimited text scans a source once in chunks,
-- keeps a sparse index of it, and decodes ranges of cells from the nearest place in that index. This
-- library models that engine and the registry around it, and proves what makes them right.
--
-- The parts and their files. Each file names the code it is about in its first line.
-- - Base and its children: lists, Boolean tests and machine words over the native numbers. Text:
--   bytes and decimal printing. Utf8: the check of UTF-8 and its lossy decoding, which the code takes
--   from the standard library. State: methods that take `&mut self` and return a `Result`, as a
--   function from a state to an outcome, which carries the state on failure too.
-- - Error (src/error.rs): `TabularkError` and results.
-- - Resource (src/resource.rs): `ResourceLedger`, which charges bytes in five categories against a
--   budget, reclaims the native cache once when bytes do not fit, and keeps high-water marks.
-- - Model.Range, Model.Schema, Model.Strings, Model.Batch (src/model.rs): extents, `RangeRequest`,
--   `Schema`, `StringColumnBatch` and `TableBatch`.
-- - Model.Types, Model.Slices, Model.Layout, Model.Typed (src/model.rs): `TableDataType`, views into a
--   buffer pool, `ArrayDescriptor` with `validate_array_buffers`, and `TypedTableBatch`. Model.Pool:
--   `intern_batch_buffer`, which shares buffers of equal bytes. Model.Convert: `TableBatch::to_typed`
--   and `into_typed`.
-- - Protocol.Actions, Protocol.Matching, Protocol.Cursor (src/protocol.rs): the source ranges that an
--   adapter's operation asks for, the match of results with them, and `AdapterOperationCursor`.
-- - Csv.Options and Csv.Diagnostics (src/csv.rs): options, limits, diagnostics, checkpoints, plans.
-- - Csv.Quotes: `QuoteTracker::consume`, the lexical state machine, with `step` for one byte.
-- - Csv.Scanner: the state of `CsvScanner` with `append_field`, `finish_field`, `ensure_columns`,
--   `finish_record` and `handle_diagnostic`. Csv.Process: `process_bytes`, round by round, and
--   `finish`. Csv.Scan: `new`, `feed_chunk` with the byte order mark, and `metadata`. Csv.Estimate:
--   `estimated_index_bytes`.
-- - Csv.Plan: `validate_range` and `plan_range`.
-- - Csv.Decoder: the state of `RangeDecoder` with its fields and records. Csv.Decode: `feed_chunk`,
--   `finish_eof` and `immediate_batch`.
-- - Csv.Builder: `StringColumnBuilder`, the buffers of a column in a batch.
-- - Csv.Memory: `MemorySource`, which scans and reads bytes that it holds.
-- - Config and Runtime (src/runtime.rs), with Maps for the `HashMap`s: `RuntimeConfig`, `Runtime`,
--   handles of sources and active ranges, and their lifecycle.
-- - Excel.Host, Excel.Segments, Excel.Ranges, Excel.Missing, Excel.Reader
--   (crates/tabulark-excel-wasm/src/range.rs): `HostRange` and `IndexedRanges`, the parts of a workbook
--   that the host has read, with `insert`, `bytes` and `first_missing`, and `SparseReader` with `read`
--   and `seek`, which answer with an error of `io` as the code does.
-- - Excel.Zip (range.rs): `parse_end_of_central_directory` with `parse_zip64_end`, which find the
--   central directory of a package, and `header_range` and `data_range` of an entry.
--   Excel.Zip.Extra and Excel.Zip.Directory: `parse_central_directory` with the paths and the ZIP64
--   fields of its entries.
--   Excel.Zip.Writer: the record of the end as `build_raw_zip` writes it.
-- - Tests and its children: runs at concrete inputs.
--
-- How they interact. `Runtime::scan_chunk` feeds a scanner of the registry; `begin_range` plans from
-- its index and makes a decoder, which `feed_range` feeds and gives back or drops. A decoder fills one
-- builder for each selected column, and its batch is made of string columns of the model. Scanner and
-- decoder each run a quote tracker beside the reader.
--
-- Parameters. The crate csv_core is not part of the repository: Csv.Core has a reader as a record of
-- operations (`CsvCore`), with what its documentation says of `consumed` as a record of laws
-- (`IsDocumented`). The capacities that the allocator gives to strings and vectors are arguments.
--
-- Machine integers. `u64`, `u32` and `usize` are native numbers with their checked and saturating
-- operations in Base.Words; `usize` has 32 bits, as on the WebAssembly target.
--
-- Loops. The loop over a chunk has as many rounds as the chunk has bytes, the loops of a memory
-- source as many as the source, and the loop at the end of the source four, as in the code. That is
-- enough, since every round moves on by a byte at least, for a reader as documented. The loop of
-- `first_missing` has two rounds more than the range has bytes, and every round moves on as well.
-- The loops over the entries of a central directory and over their extra data have one round more
-- than there are bytes, and every entry and every field of those has some.
--
-- Not modelled. The adapters for Arrow (src/arrow.rs) and Parquet (src/parquet.rs), and that for
-- Excel (crates/tabulark-excel-wasm) but for its ranges and the directory of a package: their work
-- is mostly in crates outside the repository; the requests, responses and events of
-- src/protocol.rs, which are serde values without operations; the bindings (src/wasm.rs and
-- crates), which are wasm-bindgen glue; column extensions and serialization.
pub mod Base
pub mod Text
pub mod Utf8
pub mod Error
pub mod State
pub mod Resource
pub mod Model
pub mod Csv
pub mod Maps
pub mod Config
pub mod Runtime
pub mod Protocol
pub mod Excel
pub mod Tests
