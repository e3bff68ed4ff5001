-- ===== src/Csv/Decode.antt =====
-- src/csv.rs: `RangeDecoder` fed with slices of the source.
pub mod Eof
pub mod Invariants
pub mod Limits
pub mod Rounds
pub mod Rows
use tabulark.Base.{
  ℕ, zero, suc, ◌+◌, Bool, true, false, not, ◌&&◌, ◌||◌, List, [], ◌∷◌, Option, none, some, ◌==◌,
  if◌then◌else◌, length, drop, u64_max, checked_add,
}
use tabulark.Text.{Bytes}
use tabulark.Error.{new, invalid_argument, resource_limit, runtime_failure, handle_closed}
use tabulark.State.{pure, throw, get, modify, some_or, throw_if, ◌>>=◌, ◌>>◌}
use tabulark.Model.Batch.{TableBatch}
use tabulark.Csv.Core.{CsvCore, Read, ReadFieldResult, input_empty, output_full, field, end}
use tabulark.Csv.Options.{malformed_quote}
use tabulark.Csv.Diagnostics.{offset_error}
use tabulark.Csv.Quotes.{QuoteIssue, consume, unclosed_quote_offset}
use tabulark.Csv.Decoder.{
  RangeDecoder, Decode, handle_diagnostic, append_field, finish_field, finish_record, build_batch,
}

pub data RangeDecodeStatus : Type 0 where
  need_more : RangeDecodeStatus
  complete : TableBatch → RangeDecodeStatus

module _ (core : CsvCore) where
  unfoldable pub immediate_batch : Decode core (Option TableBatch)
  immediate_batch = do
    s ← get
    if s.done && s.returned_rows == 0 && s.plan.request.row_count == 0
        then (do batch ← build_batch core true; pure (some batch))
        else pure none

  -- The diagnostics for the quoting of a slice, at the row where the slice begins.
  unfoldable pub report : List QuoteIssue → Decode core (Unit {0})
  report [] = pure tt
  report (i ∷ is) = do
    s ← get
    handle_diagnostic core (record {
      kind = malformed_quote;
      row = some s.current_row;
      byte_offset = i.offset;
      message = i.message;
    })
    report is

  unfoldable pub advance : ℕ → Decode core (Unit {0})
  advance consumed = do
    s ← get
    offset ←
        some_or (checked_add u64_max s.expected_offset consumed)
          (new resource_limit "range parser offset overflow")
    modify (λ t. record t { expected_offset = offset })

  unfoldable pub read_field : Bytes → Decode core (Read core.Reader)
  read_field input = do
    s ← get
    let r = core.read_field s.reader input
    modify (λ t. record t { reader = r.reader })
    append_field core r.written
    advance r.consumed
    pure r

  abbrev pub end_field : Bool → Decode core (Unit {0})
  end_field record_end = do finish_field core; if record_end then finish_record core else pure tt

  -- The match on the reader's result: `true` leaves the loop.
  unfoldable pub dispatch : ReadFieldResult → Decode core Bool
  dispatch input_empty = pure true
  dispatch output_full = pure false
  dispatch (field record_end) = do end_field record_end; pure false
  dispatch end =
      throw (new runtime_failure "range parser reached end before its chunk was exhausted")

  -- One round of the loop: the input that is left, or `none` after a break.
  unfoldable pub round : Bytes → Decode core (Option Bytes)
  round input = do
    r ← read_field input
    leave ← dispatch r.result
    if leave then pure none else (do
      throw_if (r.consumed == 0 && length r.written == 0)
          (new runtime_failure "range parser made no progress")
      pure (some (drop r.consumed input)))

  -- `while !input.is_empty() && !self.done`
  unfoldable pub rounds : ℕ → Bytes → Decode core (Unit {0})
  rounds zero input = pure tt
  rounds (suc fuel) [] = pure tt
  rounds (suc fuel) (b ∷ input) = get >>= λ s. elim s.done [
    | true ↦ pure tt
    | false ↦
        round (b ∷ input) >>= λ left. elim left [ none ↦ pure tt | some rest ↦ rounds fuel rest ]
  ]

  -- The match on the reader's result at the end of the source: `true` once the reader has ended.
  unfoldable pub dispatch_eof : ReadFieldResult → Decode core Bool
  dispatch_eof (field record_end) = do end_field record_end; pure false
  dispatch_eof end = do modify (λ s. record s { done = true }); pure true
  dispatch_eof output_full = pure false
  dispatch_eof input_empty = pure false

  -- The batch at the end of the source, whether or not all rows were there.
  abbrev pub finish_short : Decode core RangeDecodeStatus
  finish_short = do
    s ← get
    batch ← build_batch core (s.returned_rows == s.plan.request.row_count)
    pure (complete batch)

  abbrev pub finish_done : Decode core RangeDecodeStatus
  finish_done = do batch ← build_batch core true; pure (complete batch)

  -- Only a field can finish the range: after the other results the loop goes on.
  abbrev pub ended_range : ReadFieldResult → Bool → Bool
  ended_range (field record_end) done = done
  ended_range _ done = false

  -- `for _ in 0..4` over the empty input.
  unfoldable pub drain : ℕ → Decode core RangeDecodeStatus
  drain zero = throw (new runtime_failure "range parser did not terminate at end-of-file")
  drain (suc n) = do
    s ← get
    let r = core.read_field s.reader []
    modify (λ t. record t { reader = r.reader })
    append_field core r.written
    ended ← dispatch_eof r.result
    t ← get
    elim ended [
      | true ↦ finish_short
      | false ↦ elim (ended_range r.result t.done) [ true ↦ finish_done | false ↦ drain n ]
    ]

  abbrev pub report_unclosed : Option ℕ → Decode core (Unit {0})
  report_unclosed none = pure tt
  report_unclosed (some offset) = do
    s ← get
    handle_diagnostic core (record {
      kind = malformed_quote;
      row = some s.current_row;
      byte_offset = offset;
      message = "quoted field is not terminated before end-of-file";
    })

  unfoldable pub finish_eof : Decode core RangeDecodeStatus
  finish_eof = do s ← get; report_unclosed (unclosed_quote_offset s.lexical); drain 4

  unfoldable pub feed_chunk : ℕ → Bytes → Bool → Decode core RangeDecodeStatus
  feed_chunk absolute_offset bytes eof = do
    s ← get
    throw_if s.done (new handle_closed "range decoder is already complete")
    throw_if (not (absolute_offset == s.expected_offset)) (
        offset_error
          (new invalid_argument "range chunks must be contiguous and begin at the planned offset")
          s.expected_offset absolute_offset)
    let (lexical, issues) = consume s.lexical bytes absolute_offset
    modify (λ t. record t { lexical = lexical })
    report issues
    rounds (length bytes) bytes
    t ← get
    if t.done then finish_done else if eof then finish_eof else pure need_more
