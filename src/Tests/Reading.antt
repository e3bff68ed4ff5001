-- ===== src/Tests/Reading.antt =====
-- Examples for the range decoder and reads from memory (csv.rs).
use tabulark.Csv.Decoder.Rows.{IsCounted}
use tabulark.Csv.Decode.Rows.{feed_chunk-IsCounted}
use tabulark.Model.Range.{new_range, row_end, checked_end, validate_public}
use tabulark.Csv.Builder.{push, write, finish}
use tabulark.Csv.Decoder.{
  handle_diagnostic, append_field, make_text, finish_field, push_row, finish_all, emit_row,
  finish_record, build_batch,
}
use tabulark.Model.Strings.{value, len, new_strings, is_monotonic}
use tabulark.Model.Batch.{TableBatch}
use tabulark.Error.{Result, err, new, runtime_failure, ◌>>=◌, ok}
use tabulark.Csv.Decode.Rounds.{rounds-suffice}
use tabulark.Csv.Decoder.Limits.{IsBounded}
use tabulark.Csv.Decode.Limits.{feed_chunk-IsBounded}
use tabulark.Base.{drop, ◌≡◌, ◌≢◌, arith, true, length, Option, none, some, List, [], ◌∷◌, refl}
use tabulark.State.{done, state_of, monad, result_of}
use tabulark.Text.{codes, Bytes}
use tabulark.Csv.Decode.{
  need_more, feed_chunk, rounds, report, advance, read_field, dispatch, round, drain, dispatch_eof,
  finish_eof, RangeDecodeStatus, complete,
}
use tabulark.Csv.Decode.Eof.{feed_chunk-ends}
use tabulark.Csv.Memory.{MemorySource, read_from, scan_from}
use tabulark.Csv.Memory.Cut.{IsCut}
use tabulark.Csv.Memory.Chunks.{read_all, scan_all, read_from-chunks, scan_from-chunks}
use tabulark.Tests.{plain, table, scanned, decoder, fresh, plain-IsDocumented, scanning}

feed_chunk-ends_example :
    feed_chunk plain 12 (codes "c,3\nd,4\n") true decoder ≢ done need_more decoder
feed_chunk-ends_example = feed_chunk-ends plain 12 (codes "c,3\nd,4\n") decoder decoder

abbrev memory : MemorySource plain
memory = record { bytes = table; scanner = scanned; chunk_size = 7 }

read_from-chunks_example :
    (c : Bytes) × (cs : List Bytes) × IsCut 7 (drop 12 table) (c ∷ cs)
    × (read_from plain 30 12 memory decoder ≡ read_all plain 12 c cs decoder)
read_from-chunks_example =
    read_from-chunks plain 30 12 memory decoder (omega arith) (omega arith) (omega arith)
      (omega arith)

feed_chunk-IsBounded_example :
    IsBounded plain (state_of (feed_chunk plain 12 (codes "c,3\nd,4\n") true decoder))
feed_chunk-IsBounded_example =
    feed_chunk-IsBounded plain 12 (codes "c,3\nd,4\n") true decoder (ground arith)

rounds-suffice_example :
    rounds plain 50 (codes "c,3\nd,4\n") decoder
    ≡ rounds plain (length (codes "c,3\nd,4\n")) (codes "c,3\nd,4\n") decoder
rounds-suffice_example =
    rounds-suffice plain plain-IsDocumented 50 (codes "c,3\nd,4\n") decoder (omega arith)

scan_from-chunks_example :
    (chunks : List Bytes) × IsCut 7 table chunks
    × (scan_from plain 99 0 7 table fresh ≡ scan_all plain 0 chunks fresh)
scan_from-chunks_example =
    scan_from-chunks plain 99 0 7 table fresh (omega arith) (omega arith) (omega arith)

-- The cells that a read gives, column by column.
abbrev cells : Result TableBatch → List (Option (Option Bytes))
cells (ok b) = elim b.columns [ [] ↦ [] | c ∷ cs ↦ value c 0 ∷ value c 1 ∷ value c 2 ∷ [] ]
cells (err e) = []

-- Rows 3 and 4 of the first column.
read_cells :
    cells (read_from plain 30 12 memory decoder)
    ≡ some (some (codes "d")) ∷ some (some (codes "e")) ∷ none ∷ []
unfolding scanning read_from feed_chunk report advance read_field dispatch round rounds
    handle_diagnostic append_field make_text finish_field push_row finish_all emit_row finish_record
    build_batch push write finish new_strings is_monotonic new_range row_end checked_end
    validate_public value len monad
read_cells = refl

abbrev batch_of : RangeDecodeStatus → Result TableBatch
batch_of need_more = err (new runtime_failure "the batch is not complete")
batch_of (complete b) = ok b

-- The end of the source before the second row: the batch is not complete, and has the rows there are.
read_short :
    cells (result_of (feed_chunk plain 12 (codes "c,3\nd,4") true decoder) >>= batch_of)
    ≡ some (some (codes "d")) ∷ none ∷ none ∷ []
unfolding scanning feed_chunk finish_eof drain dispatch_eof report advance read_field dispatch round
    rounds handle_diagnostic append_field make_text finish_field push_row finish_all emit_row
    finish_record build_batch push write finish new_strings is_monotonic new_range row_end
    checked_end validate_public value len monad
read_short = refl

feed_chunk-IsCounted_example :
    IsCounted plain (state_of (feed_chunk plain 12 (codes "c,3\nd,4\n") true decoder))
feed_chunk-IsCounted_example =
    feed_chunk-IsCounted plain 12 (codes "c,3\nd,4\n") true decoder (ground arith)
