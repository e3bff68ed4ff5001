-- ===== src/Csv/Decode/Rows.antt =====
-- A decoder counts its rows right whatever slices it is fed (csv.rs).
use tabulark.Base.{ℕ, Bool, arith}
use tabulark.Text.{Bytes}
use tabulark.State.{state_of}
use tabulark.Csv.Core.{CsvCore}
use tabulark.Csv.Decoder.{RangeDecoder}
use tabulark.Csv.Decoder.Rows.{
  IsCounted, handle_diagnostic-IsCounted, append_field-IsCounted, finish_field-IsCounted,
  finish_record-IsCounted, build_batch-IsCounted,
}
use tabulark.Csv.Decode.{feed_chunk}
use tabulark.Csv.Decode.Invariants.{feed_chunk-Keeps}

module _ (core : CsvCore) where
  -- Whatever a decoder is fed, if it succeeds or fails, it returns at most as many rows as were
  -- asked for, and at most as many as it has passed since the first of them.
  pub feed_chunk-IsCounted :
      (offset : ℕ) (bytes : Bytes) (eof : Bool) (s : RangeDecoder core)
      → IsCounted core s
      → IsCounted core (state_of (feed_chunk core offset bytes eof s))
  feed_chunk-IsCounted offset bytes eof =
      (feed_chunk-Keeps core (IsCounted core) (λ s _ _ _ _ h. ground arith)
        (handle_diagnostic-IsCounted core) (append_field-IsCounted core)
        (finish_field-IsCounted core) (finish_record-IsCounted core) (build_batch-IsCounted core)
        offset bytes eof).keep
