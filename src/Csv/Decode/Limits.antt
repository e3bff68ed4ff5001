-- ===== src/Csv/Decode/Limits.antt =====
-- A decoder keeps to its limits whatever slices it is fed (csv.rs).
use tabulark.Base.{ℕ, Bool, arith}
use tabulark.Text.{Bytes}
use tabulark.State.{state_of}
use tabulark.Csv.Core.{CsvCore}
use tabulark.Csv.Decoder.{RangeDecoder}
use tabulark.Csv.Decoder.Limits.{
  IsBounded, handle_diagnostic-IsBounded, append_field-IsBounded, finish_field-IsBounded,
  finish_record-IsBounded, build_batch-IsBounded,
}
use tabulark.Csv.Decode.{feed_chunk}
use tabulark.Csv.Decode.Invariants.{feed_chunk-Keeps}

module _ (core : CsvCore) where
  -- Whatever a decoder is fed, if it succeeds or fails, it stays within its limits: the bytes of the
  -- field at hand, the diagnostics and the bytes counted for the batch are at most as many as
  -- configured, and a strict decoder keeps no diagnostics.
  pub feed_chunk-IsBounded :
      (offset : ℕ) (bytes : Bytes) (eof : Bool) (s : RangeDecoder core)
      → IsBounded core s
      → IsBounded core (state_of (feed_chunk core offset bytes eof s))
  feed_chunk-IsBounded offset bytes eof =
      (feed_chunk-Keeps core (IsBounded core) (λ s _ _ _ _ h. ground arith)
        (handle_diagnostic-IsBounded core) (append_field-IsBounded core)
        (finish_field-IsBounded core) (finish_record-IsBounded core) (build_batch-IsBounded core)
        offset bytes eof).keep
