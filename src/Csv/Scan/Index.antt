-- ===== src/Csv/Scan/Index.antt =====
-- A scanner keeps its sparse index whatever chunks it is fed (csv.rs).
use tabulark.Base.{ℕ, Bool, ◌≡◌, arith, ==_iff}
use tabulark.Error.{ok}
use tabulark.Text.{Bytes}
use tabulark.State.{state_of}
use tabulark.Csv.Core.{CsvCore}
use tabulark.Csv.Options.{DelimitedOptions, validate}
use tabulark.Csv.Scanner.{CsvScanner}
use tabulark.Csv.Scanner.Index.{
  IsIndexed, handle_diagnostic-On, append_field-On, finish_field-On, finish_record-IsIndexed,
}
use tabulark.Csv.Scan.{new_scanner, feed_chunk}
use tabulark.Csv.Scan.Invariants.{feed_chunk-Keeps}

module _ (core : CsvCore) where
  -- A new scanner, whose options are valid, has its index in order.
  pub new_scanner-IsIndexed :
      (o : DelimitedOptions) (s : CsvScanner core) → new_scanner core o ≡ ok s → IsIndexed core s
  unfolding new_scanner validate
  new_scanner-IsIndexed o s e = ground (arith, ==_iff o.checkpoint_interval 0)

  -- Whatever a scanner is fed, if it succeeds or fails, its checkpoints stay in order: the first is
  -- for row 0, each is for a multiple of the interval, at most one interval after the one before,
  -- and the rows counted end at most one interval after the last.
  pub feed_chunk-IsIndexed :
      (offset : ℕ) (bytes : Bytes) (eof : Bool) (s : CsvScanner core)
      → IsIndexed core s
      → IsIndexed core (state_of (feed_chunk core offset bytes eof s))
  feed_chunk-IsIndexed offset bytes eof =
      (feed_chunk-Keeps core (IsIndexed core) (λ s _ _ _ _ _ _ _ _ h. h)
        (handle_diagnostic-On core _) (append_field-On core _) (finish_field-On core _)
        (finish_record-IsIndexed core) offset bytes eof).keep
