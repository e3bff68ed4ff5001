-- ===== src/Csv/Scan/Limits.antt =====
-- A scanner keeps to its limits whatever chunks it is fed (csv.rs).
use tabulark.Base.{ℕ, Bool, ◌≡◌, arith}
use tabulark.Error.{ok}
use tabulark.Text.{Bytes}
use tabulark.State.{state_of}
use tabulark.Csv.Core.{CsvCore}
use tabulark.Csv.Options.{DelimitedOptions}
use tabulark.Csv.Scanner.{CsvScanner}
use tabulark.Csv.Scanner.Limits.{
  IsLimited, handle_diagnostic-IsLimited, append_field-IsLimited, finish_field-IsLimited,
  finish_record-IsLimited,
}
use tabulark.Csv.Scan.{new_scanner, feed_chunk}
use tabulark.Csv.Scan.Invariants.{feed_chunk-Keeps}

module _ (core : CsvCore) where
  -- A new scanner is within its limits.
  new_scanner-IsLimited :
      (o : DelimitedOptions) (s : CsvScanner core) → new_scanner core o ≡ ok s → IsLimited core s
  unfolding new_scanner
  new_scanner-IsLimited o s e = ground arith

  -- Whatever a scanner is fed, if it succeeds or fails, it stays within its limits: the bytes of the
  -- field at hand, the columns and the diagnostics are at most as many as configured, a strict
  -- scanner keeps no diagnostics, and the columns are numbered from 0 on.
  pub feed_chunk-IsLimited :
      (offset : ℕ) (bytes : Bytes) (eof : Bool) (s : CsvScanner core)
      → IsLimited core s
      → IsLimited core (state_of (feed_chunk core offset bytes eof s))
  feed_chunk-IsLimited offset bytes eof =
      (feed_chunk-Keeps core (IsLimited core) (λ s _ _ _ _ _ _ _ _ h. ground arith)
        (handle_diagnostic-IsLimited core) (append_field-IsLimited core)
        (finish_field-IsLimited core) (finish_record-IsLimited core) offset bytes eof).keep
