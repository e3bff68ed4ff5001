-- ===== src/Csv/Decode/Invariants.antt =====
-- An invariant that the decoder's steps on fields and records keep is kept by its whole protocol
-- (csv.rs).
use tabulark.Base.{ℕ, zero, suc, Bool, true, false, List, [], ◌∷◌, Option, none, some}
use tabulark.Text.{Bytes}
use tabulark.State.{pure}
use tabulark.State.Keeps.{
  Keeps, Keeps-bind, Keeps-seq, Keeps-modify, Keeps-get, Keeps-some_or, Keeps-throw_if, Keeps-throw,
  Keeps-if, Keeps-pure,
}
use tabulark.Csv.Core.{CsvCore, ReadFieldResult, input_empty, output_full, field, end}
use tabulark.Csv.Options.{CsvDiagnostic}
use tabulark.Csv.Quotes.{QuoteIssue, QuoteTracker}
use tabulark.Csv.Decoder.{
  RangeDecoder, Decode, handle_diagnostic, append_field, finish_field, finish_record, build_batch,
}
use tabulark.Csv.Decode.{
  RangeDecodeStatus, advance, report, read_field, end_field, dispatch, round, rounds, dispatch_eof,
  finish_short, finish_done, drain, report_unclosed, finish_eof, feed_chunk,
}

-- `P` says nothing of the fields that only the protocol sets.
module _ (core : CsvCore) (P : RangeDecoder core → Type 0)
    (frame : (s : RangeDecoder core) (reader : core.Reader) (lexical : QuoteTracker) (offset : ℕ)
        (finished : Bool)
      → P s
      → P (record s {
        reader = reader;
        lexical = lexical;
        expected_offset = offset;
        done = finished;
      }))
    (handle_diagnostic-Keeps : (d : CsvDiagnostic) → Keeps P (handle_diagnostic core d))
    (append_field-Keeps : (bytes : Bytes) → Keeps P (append_field core bytes))
    (finish_field-Keeps : Keeps P (finish_field core))
    (finish_record-Keeps : Keeps P (finish_record core))
    (build_batch-Keeps : (complete : Bool) → Keeps P (build_batch core complete)) where
  report-Keeps : (is : List QuoteIssue) → Keeps P (report core is)
  unfolding report
  report-Keeps [] = Keeps-pure tt
  report-Keeps (i ∷ is) =
      Keeps-bind Keeps-get λ s. Keeps-seq (handle_diagnostic-Keeps _) (report-Keeps is)

  advance-Keeps : (n : ℕ) → Keeps P (advance core n)
  unfolding advance
  advance-Keeps n =
      Keeps-bind Keeps-get
        λ s. Keeps-bind (Keeps-some_or _ _) λ m. Keeps-modify _ (λ t h. frame t _ _ _ _ h)

  read_field-Keeps : (input : Bytes) → Keeps P (read_field core input)
  unfolding read_field
  read_field-Keeps input = Keeps-bind Keeps-get λ s.
      Keeps-seq (Keeps-modify _ (λ t h. frame t _ _ _ _ h))
        (Keeps-seq (append_field-Keeps _) (Keeps-seq (advance-Keeps _) (Keeps-pure _)))

  end_field-Keeps : (record_end : Bool) → Keeps P (end_field core record_end)
  end_field-Keeps record_end =
      Keeps-seq finish_field-Keeps (Keeps-if _ finish_record-Keeps (Keeps-pure tt))

  dispatch-Keeps : (r : ReadFieldResult) → Keeps P (dispatch core r)
  unfolding dispatch
  dispatch-Keeps input_empty = Keeps-pure true
  dispatch-Keeps output_full = Keeps-pure false
  dispatch-Keeps (field record_end) = Keeps-seq (end_field-Keeps record_end) (Keeps-pure false)
  dispatch-Keeps end = Keeps-throw _

  round-Keeps : (input : Bytes) → Keeps P (round core input)
  unfolding round
  round-Keeps input = Keeps-bind (read_field-Keeps input) λ r.
      Keeps-bind (dispatch-Keeps r.result)
        λ leave. Keeps-if _ (Keeps-pure none) (Keeps-seq (Keeps-throw_if _ _) (Keeps-pure _))

  -- The rounds behind the test of `done`.
  unless_done :
      (done : Bool) {m : Decode core (Unit {0})}
      → Keeps P m
      → Keeps P (elim done [ true ↦ pure tt | false ↦ m ])
  unless_done true h = Keeps-pure tt
  unless_done false h = h

  rounds-Keeps : (fuel : ℕ) (input : Bytes) → Keeps P (rounds core fuel input)
  unfolding rounds
  rounds-Keeps zero input = Keeps-pure tt
  rounds-Keeps (suc fuel) [] = Keeps-pure tt
  rounds-Keeps (suc fuel) (b ∷ input) = Keeps-bind Keeps-get λ s. unless_done _ (
      Keeps-bind (round-Keeps (b ∷ input))
        (elim [ none ↦ Keeps-pure tt | some rest ↦ rounds-Keeps fuel rest ]))

  dispatch_eof-Keeps : (r : ReadFieldResult) → Keeps P (dispatch_eof core r)
  unfolding dispatch_eof
  dispatch_eof-Keeps (field record_end) = Keeps-seq (end_field-Keeps record_end) (Keeps-pure false)
  dispatch_eof-Keeps end = Keeps-seq (Keeps-modify _ (λ t h. frame t _ _ _ _ h)) (Keeps-pure true)
  dispatch_eof-Keeps output_full = Keeps-pure false
  dispatch_eof-Keeps input_empty = Keeps-pure false

  finish_done-Keeps : Keeps P (finish_done core)
  finish_done-Keeps = Keeps-bind (build_batch-Keeps true) λ b. Keeps-pure _

  drained :
      (ended over : Bool) {rest : Decode core RangeDecodeStatus}
      → Keeps P rest
      → Keeps P (elim ended [
        | true ↦ finish_short core
        | false ↦ elim over [ true ↦ finish_done core | false ↦ rest ]
      ])
  drained true over h = Keeps-bind Keeps-get λ s. Keeps-bind (build_batch-Keeps _) λ b. Keeps-pure _
  drained false true h = finish_done-Keeps
  drained false false h = h

  drain-Keeps : (n : ℕ) → Keeps P (drain core n)
  unfolding drain
  drain-Keeps zero = Keeps-throw _
  drain-Keeps (suc n) = Keeps-bind Keeps-get λ s.
      Keeps-seq (Keeps-modify _ (λ t h. frame t _ _ _ _ h)) (
        Keeps-seq (append_field-Keeps _) (
          Keeps-bind (dispatch_eof-Keeps _)
            λ ended. Keeps-bind Keeps-get λ t. drained _ _ (drain-Keeps n)))

  report_unclosed-Keeps : (o : Option ℕ) → Keeps P (report_unclosed core o)
  report_unclosed-Keeps none = Keeps-pure tt
  report_unclosed-Keeps (some offset) = Keeps-bind Keeps-get λ s. handle_diagnostic-Keeps _

  finish_eof-Keeps : Keeps P (finish_eof core)
  unfolding finish_eof
  finish_eof-Keeps = Keeps-bind Keeps-get λ s. Keeps-seq (report_unclosed-Keeps _) (drain-Keeps 4)

  pub feed_chunk-Keeps :
      (offset : ℕ) (bytes : Bytes) (eof : Bool) → Keeps P (feed_chunk core offset bytes eof)
  unfolding feed_chunk
  feed_chunk-Keeps offset bytes eof = Keeps-bind Keeps-get λ s. Keeps-seq (Keeps-throw_if _ _) (
      Keeps-seq (Keeps-throw_if _ _) (
        Keeps-seq (Keeps-modify _ (λ t h. frame t _ _ _ _ h)) (
          Keeps-seq (report-Keeps _) (
            Keeps-seq (rounds-Keeps _ bytes) (
              Keeps-bind Keeps-get
                λ t. Keeps-if _ finish_done-Keeps (Keeps-if _ finish_eof-Keeps (Keeps-pure _)))))))
