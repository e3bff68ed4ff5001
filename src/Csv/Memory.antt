-- ===== src/Csv/Memory.antt =====
-- src/csv.rs: `MemorySource`, which scans and reads bytes that it retains.
pub mod Cut
pub mod Chunks
use tabulark.Base.{
  ℕ, zero, suc, ◌+◌, ◌-◌, Bool, true, false, List, [], ◌∷◌, Option, none, some, leb, ltb, min, ◌==◌,
  if◌then◌else◌, length, take, drop, usize_max, saturating_add, try_from,
}
use tabulark.Text.{Bytes}
use tabulark.Error.{
  TabularkError, Result, ok, err, new, invalid_argument, invalid_range, runtime_failure, fail_if,
  ok_or, ◌>>=◌, ◌>>◌,
}
use tabulark.State.{Outcome, done, fail}
use tabulark.Model.Range.{RangeRequest}
use tabulark.Model.Schema.{new_schema}
use tabulark.Model.Strings.{slice}
use tabulark.Model.Batch.{TableBatch}
use tabulark.Csv.Core.{CsvCore}
use tabulark.Csv.Options.{DelimitedOptions, RangePlan, source_offset}
use tabulark.Csv.Scanner.{CsvScanner}
use tabulark.Csv.Scan.{ScanUpdate, new_scanner, feed_chunk}
use tabulark.Csv.Plan.{plan_range}
use tabulark.Csv.Decoder.{RangeDecoder, new_decoder}
use tabulark.Csv.Decode.{RangeDecodeStatus, need_more, complete, immediate_batch}
use tabulark.Csv.Decode

module _ (core : CsvCore) where
  pub record MemorySource : Type 0 where
    pub bytes : Bytes
    pub scanner : CsvScanner core
    pub chunk_size : ℕ

  -- `offset.saturating_add(chunk_size).min(bytes.len())`
  abbrev pub chunk_end : ℕ → ℕ → Bytes → ℕ
  chunk_end offset chunk_size bytes =
      min (saturating_add usize_max offset chunk_size) (length bytes)

  abbrev pub scanned : Outcome (CsvScanner core) ScanUpdate → Result (CsvScanner core)
  scanned (done update s) = ok s
  scanned (fail e s) = err e

  -- `while offset < bytes.len()`: every round moves `offset` on.
  unfoldable pub scan_from : ℕ → ℕ → ℕ → Bytes → CsvScanner core → Result (CsvScanner core)
  scan_from zero offset chunk_size bytes s = ok s
  scan_from (suc fuel) offset chunk_size bytes s = elim (ltb offset (length bytes)) [
    | false ↦ ok s
    | true ↦
        let next = chunk_end offset chunk_size bytes in
        scanned (feed_chunk core offset (slice offset next bytes) (next == length bytes) s) >>= λ t.
        scan_from fuel next chunk_size bytes t
  ]

  unfoldable pub open_with_chunk_size : Bytes → DelimitedOptions → ℕ → Result MemorySource
  open_with_chunk_size bytes options chunk_size = do
    fail_if (chunk_size == 0)
        (new invalid_argument "memory source chunk size must be greater than zero")
    s ← new_scanner core options
    t ←
        if length bytes == 0
        then scanned (feed_chunk core 0 [] true s)
        else scan_from (length bytes) 0 chunk_size bytes s
    ok (record { bytes = bytes; scanner = t; chunk_size = chunk_size })

  -- `CsvScanner::range_decoder`
  unfoldable pub range_decoder : RangePlan → CsvScanner core → Result (RangeDecoder core)
  range_decoder plan s = do
    schema ← new_schema s.schema_version s.columns
    new_decoder core s.options plan schema

  abbrev pub only_complete : Outcome (RangeDecoder core) RangeDecodeStatus → Result TableBatch
  only_complete (fail e d) = err e
  only_complete (done (complete batch) d) = ok batch
  only_complete (done need_more d) =
      err (new runtime_failure "range decoder requested bytes beyond end-of-file")

  -- What the loop does with an answer: it returns, or goes on with the decoder.
  abbrev pub next_read :
      Outcome (RangeDecoder core) RangeDecodeStatus
      → (RangeDecoder core → Result TableBatch)
      → Result TableBatch
  next_read (fail e d) go_on = err e
  next_read (done (complete batch) d) go_on = ok batch
  next_read (done need_more d) go_on = go_on d

  abbrev pub out_of_rounds : TabularkError
  out_of_rounds = new runtime_failure "out of rounds"

  -- `loop`. The last slice is fed with `eof`, and is never answered by `need_more`, so as many
  -- rounds as there are bytes are enough.
  unfoldable pub read_from : ℕ → ℕ → MemorySource → RangeDecoder core → Result TableBatch
  read_from zero offset m d = err out_of_rounds
  read_from (suc fuel) offset m d =
      let next = chunk_end offset m.chunk_size m.bytes in
      next_read
        (Decode.feed_chunk core offset (slice offset next m.bytes) (next == length m.bytes) d)
        (λ d'. read_from fuel next m d')

  abbrev immediate_or :
      Outcome (RangeDecoder core) (Option TableBatch)
      → (RangeDecoder core → Result TableBatch)
      → Result TableBatch
  immediate_or (fail e d) go_on = err e
  immediate_or (done (some batch) d) go_on = ok batch
  immediate_or (done none d) go_on = go_on d

  unfoldable pub read_range : RangeRequest → MemorySource → Result TableBatch
  read_range request m = do
    plan ← plan_range core request m.scanner
    decoder ← range_decoder plan m.scanner
    immediate_or (immediate_batch core decoder) λ d.
        ok_or (try_from usize_max (source_offset plan))
          (new invalid_range "range source offset exceeds usize")
        >>= λ offset.
            if leb (length m.bytes) offset
            then only_complete (Decode.feed_chunk core (source_offset plan) [] true d)
            else read_from (length m.bytes) offset m d
