-- ===== src/Csv/Process.antt =====
-- src/csv.rs: `CsvScanner` runs the reader over a chunk, round by round, and drains it at the end of
-- the source.
pub mod Rounds
use tabulark.Base.{
  ℕ, zero, suc, ◌+◌, ◌-◌, Bool, true, false, not, ◌&&◌, ◌||◌, List, [], ◌∷◌, ◌++◌, Option, none,
  some, leb, ltb, ◌==◌, if◌then◌else◌, length, drop, u64_max, checked_add,
}
use tabulark.Text.{Bytes, codes}
use tabulark.Error.{
  TabularkError, Result, ok, new, invalid_argument, resource_limit, runtime_failure, handle_closed,
}
use tabulark.Error
use tabulark.State.{
  M, done, fail, pure, throw, get, put, modify, lift, some_or, throw_if, ◌>>=◌, ◌>>◌,
}
use tabulark.Model.Range.{AxisExtent, unknown, new_exact, new_at_least}
use tabulark.Model.Schema.{TableMetadata, new_schema, delimited, full, indexed_prefix}
use tabulark.Csv.Core.{CsvCore, Read, ReadFieldResult, input_empty, output_full, field, end}
use tabulark.Csv.Options.{DelimitedOptions, validate, CsvDiagnostic, CsvCheckpoint, malformed_quote}
use tabulark.Csv.Diagnostics.{offset_error}
use tabulark.Csv.Quotes.{QuoteTracker, QuoteIssue, new_tracker, consume, unclosed_quote_offset}
use tabulark.Csv.Scanner.{
  CsvScanner, Scan, handle_diagnostic, append_field, finish_field, finish_record,
}

module _ (core : CsvCore) where
  -- The diagnostics for the quoting of a chunk.
  unfoldable pub report : List QuoteIssue → Scan core (Unit {0})
  report [] = pure tt
  report (i ∷ is) = do
    handle_diagnostic core
        (record { kind = malformed_quote; row = none; byte_offset = i.offset; message = i.message })
    report is

  -- `parser_offset` moves on by what was consumed.
  unfoldable pub advance : ℕ → Scan core (Unit {0})
  advance consumed = do
    s ← get
    offset ←
        some_or (checked_add u64_max s.parser_offset consumed)
          (new resource_limit "parser offset overflow")
    modify (λ t. record t { parser_offset = offset })

  -- A call of the reader, with what it wrote appended and what it consumed counted.
  unfoldable pub read_field : Bytes → Scan core (Read core.Reader)
  read_field input = do
    s ← get
    let r = core.read_field s.reader input
    modify (λ t. record t { reader = r.reader })
    append_field core r.written
    advance r.consumed
    pure r

  -- The end of a field, and perhaps of a record.
  abbrev pub end_field : Bool → Scan core (Unit {0})
  end_field record_end = do finish_field core; if record_end then finish_record core else pure tt

  -- The match on the reader's result: `true` leaves the loop.
  unfoldable pub dispatch : ReadFieldResult → Scan core Bool
  dispatch input_empty = pure true
  dispatch output_full = pure false
  dispatch (field record_end) = do end_field record_end; pure false
  dispatch end =
      throw (new runtime_failure "CSV parser reached end before the input chunk was exhausted")

  -- One round of the loop: the input that is left, or `none` after a break.
  unfoldable pub round : Bytes → Scan core (Option Bytes)
  round input = do
    r ← read_field input
    leave ← dispatch r.result
    if leave then pure none else (do
      throw_if (r.consumed == 0 && length r.written == 0)
          (new runtime_failure "CSV parser made no progress")
      pure (some (drop r.consumed input)))

  -- `while !input.is_empty()`; a documented reader consumes input in every round, so more rounds
  -- than there are bytes are never made.
  unfoldable pub rounds : ℕ → Bytes → Scan core (Unit {0})
  rounds zero input = pure tt
  rounds (suc fuel) [] = pure tt
  rounds (suc fuel) (b ∷ input) =
      round (b ∷ input) >>= λ left. elim left [ none ↦ pure tt | some rest ↦ rounds fuel rest ]

  unfoldable pub process_bytes : ℕ → Bytes → Scan core (Unit {0})
  process_bytes base bytes = do
    s ← get
    throw_if (not (base == s.parser_offset)) (
        offset_error
          (new invalid_argument "parser input does not begin at the expected absolute offset")
          s.parser_offset base)
    let (lexical, issues) = consume s.lexical bytes base
    modify (λ t. record t { lexical = lexical })
    report issues
    rounds (length bytes) bytes

  -- The match on the reader's result at the end of the source: `true` leaves the loop.
  unfoldable pub dispatch_eof : ReadFieldResult → Scan core Bool
  dispatch_eof (field record_end) = do end_field record_end; pure false
  dispatch_eof end = do modify (λ s. record s { finished = true }); pure true
  dispatch_eof output_full = pure false
  dispatch_eof input_empty = pure false

  -- `for _ in 0..4` over the empty input.
  unfoldable pub drain : ℕ → Scan core (Unit {0})
  drain zero = throw (new runtime_failure "CSV parser did not terminate at end-of-file")
  drain (suc n) = do
    s ← get
    let r = core.read_field s.reader []
    modify (λ t. record t { reader = r.reader })
    append_field core r.written
    leave ← dispatch_eof r.result
    elim leave [ true ↦ pure tt | false ↦ drain n ]

  abbrev pub report_unclosed : Option ℕ → Scan core (Unit {0})
  report_unclosed none = pure tt
  report_unclosed (some offset) = handle_diagnostic core (record {
    kind = malformed_quote;
    row = none;
    byte_offset = offset;
    message = "quoted field is not terminated before end-of-file";
  })

  unfoldable pub finish : Scan core (Unit {0})
  finish = do s ← get; report_unclosed (unclosed_quote_offset s.lexical); drain 4
