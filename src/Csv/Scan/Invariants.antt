-- ===== src/Csv/Scan/Invariants.antt =====
-- An invariant that the scanner's steps on fields and records keep is kept by its whole protocol
-- (csv.rs).
use tabulark.Base.{ℕ, zero, suc, Bool, true, false, List, [], ◌∷◌, Option, none, some}
use tabulark.Text.{Bytes}
use tabulark.State.{M}
use tabulark.State.Keeps.{
  Keeps, Keeps-bind, Keeps-seq, Keeps-modify, Keeps-get, Keeps-some_or, Keeps-throw_if, Keeps-throw,
  Keeps-if, Keeps-pure, Keeps-lift,
}
use tabulark.Csv.Core.{CsvCore, ReadFieldResult, input_empty, output_full, field, end}
use tabulark.Csv.Options.{CsvDiagnostic}
use tabulark.Csv.Quotes.{QuoteIssue, QuoteTracker}
use tabulark.Csv.Scanner.{CsvScanner}
use tabulark.Csv.Scanner.{handle_diagnostic, append_field, finish_field, finish_record}
use tabulark.Csv.Process.{
  advance, report, read_field, end_field, dispatch, round, rounds, process_bytes, dispatch_eof,
  drain, report_unclosed, finish,
}
use tabulark.Csv.Scan.{resolve, resolve_bom, if_resolved, finish_at_eof, read_chunk, feed_chunk}

-- `P` says nothing of the fields that only the protocol sets.
module _ (core : CsvCore) (P : CsvScanner core → Type 0)
    (frame : (s : CsvScanner core) (reader : core.Reader) (lexical : QuoteTracker) (prefix : Bytes)
        (resolved : Bool) (received parsed started : ℕ) (finished : Bool)
      → P s
      → P (record s {
        reader = reader;
        lexical = lexical;
        bom_prefix = prefix;
        bom_resolved = resolved;
        bytes_received = received;
        parser_offset = parsed;
        record_start_offset = started;
        finished = finished;
      }))
    (handle_diagnostic-Keeps : (d : CsvDiagnostic) → Keeps P (handle_diagnostic core d))
    (append_field-Keeps : (bytes : Bytes) → Keeps P (append_field core bytes))
    (finish_field-Keeps : Keeps P (finish_field core))
    (finish_record-Keeps : Keeps P (finish_record core)) where
  report-Keeps : (is : List QuoteIssue) → Keeps P (report core is)
  unfolding report
  report-Keeps [] = Keeps-pure tt
  report-Keeps (i ∷ is) = Keeps-seq (handle_diagnostic-Keeps _) (report-Keeps is)

  advance-Keeps : (n : ℕ) → Keeps P (advance core n)
  unfolding advance
  advance-Keeps n =
      Keeps-bind Keeps-get
        λ s. Keeps-bind (Keeps-some_or _ _) λ m. Keeps-modify _ (λ t h. frame t _ _ _ _ _ _ _ _ h)

  read_field-Keeps : (input : Bytes) → Keeps P (read_field core input)
  unfolding read_field
  read_field-Keeps input = Keeps-bind Keeps-get λ s.
      Keeps-seq (Keeps-modify _ (λ t h. frame t _ _ _ _ _ _ _ _ h))
        (Keeps-seq (append_field-Keeps _) (Keeps-seq (advance-Keeps _) (Keeps-pure _)))

  end_field-Keeps : (record_end : Bool) → Keeps P (end_field core record_end)
  end_field-Keeps record_end =
      Keeps-seq (finish_field-Keeps) (Keeps-if _ (finish_record-Keeps) (Keeps-pure tt))

  dispatch-Keeps : (r : ReadFieldResult) → Keeps P (dispatch core r)
  unfolding dispatch
  dispatch-Keeps input_empty = Keeps-pure true
  dispatch-Keeps output_full = Keeps-pure false
  dispatch-Keeps (field record_end) = Keeps-seq (end_field-Keeps record_end) (Keeps-pure false)
  dispatch-Keeps end = Keeps-throw _

  round-Keeps : (input : Bytes) → Keeps P (round core input)
  unfolding round
  round-Keeps input = Keeps-bind (read_field-Keeps input) λ r.
      Keeps-bind (dispatch-Keeps r.result)
        λ leave. Keeps-if _ (Keeps-pure none) (Keeps-seq (Keeps-throw_if _ _) (Keeps-pure _))

  rounds-Keeps : (fuel : ℕ) (input : Bytes) → Keeps P (rounds core fuel input)
  unfolding rounds
  rounds-Keeps zero input = Keeps-pure tt
  rounds-Keeps (suc fuel) [] = Keeps-pure tt
  rounds-Keeps (suc fuel) (b ∷ input) =
      Keeps-bind (round-Keeps (b ∷ input))
        (elim [ none ↦ Keeps-pure tt | some rest ↦ rounds-Keeps fuel rest ])

  process_bytes-Keeps : (base : ℕ) (bytes : Bytes) → Keeps P (process_bytes core base bytes)
  unfolding process_bytes
  process_bytes-Keeps base bytes = Keeps-bind Keeps-get λ s. Keeps-seq (Keeps-throw_if _ _) (
      Keeps-seq (Keeps-modify _ (λ t h. frame t _ _ _ _ _ _ _ _ h))
        (Keeps-seq (report-Keeps _) (rounds-Keeps _ bytes)))

  dispatch_eof-Keeps : (r : ReadFieldResult) → Keeps P (dispatch_eof core r)
  unfolding dispatch_eof
  dispatch_eof-Keeps (field record_end) = Keeps-seq (end_field-Keeps record_end) (Keeps-pure false)
  dispatch_eof-Keeps end =
      Keeps-seq (Keeps-modify _ (λ t h. frame t _ _ _ _ _ _ _ _ h)) (Keeps-pure true)
  dispatch_eof-Keeps output_full = Keeps-pure false
  dispatch_eof-Keeps input_empty = Keeps-pure false

  drain-Keeps : (n : ℕ) → Keeps P (drain core n)
  unfolding drain
  drain-Keeps zero = Keeps-throw _
  drain-Keeps (suc n) = Keeps-bind Keeps-get λ s.
      Keeps-seq (Keeps-modify _ (λ t h. frame t _ _ _ _ _ _ _ _ h)) (
        Keeps-seq (append_field-Keeps _) (
          Keeps-bind (dispatch_eof-Keeps _)
            (elim [ true ↦ Keeps-pure tt | false ↦ drain-Keeps n ])))

  report_unclosed-Keeps : (o : Option ℕ) → Keeps P (report_unclosed core o)
  report_unclosed-Keeps none = Keeps-pure tt
  report_unclosed-Keeps (some offset) = handle_diagnostic-Keeps _

  finish-Keeps : Keeps P (finish core)
  unfolding finish
  finish-Keeps = Keeps-bind Keeps-get λ s. Keeps-seq (report_unclosed-Keeps _) (drain-Keeps 4)

  resolve-Keeps : (prefix : Bytes) → Keeps P (resolve core prefix)
  unfolding resolve
  resolve-Keeps prefix =
      Keeps-if _ (Keeps-modify _ (λ t h. frame t _ _ _ _ _ _ _ _ h)) (
        Keeps-seq (Keeps-modify _ (λ t h. frame t _ _ _ _ _ _ _ _ h))
          (process_bytes-Keeps 0 prefix))

  resolve_bom-Keeps : (bytes : Bytes) (eof : Bool) → Keeps P (resolve_bom core bytes eof)
  unfolding resolve_bom
  resolve_bom-Keeps bytes eof = Keeps-bind Keeps-get λ s. Keeps-if _ (Keeps-pure bytes) (
      Keeps-seq (Keeps-modify _ (λ t h. frame t _ _ _ _ _ _ _ _ h))
        (Keeps-seq (Keeps-if _ (resolve-Keeps _) (Keeps-pure tt)) (Keeps-pure _)))

  if_resolved-Keeps :
      {m : M (CsvScanner core) (Unit {0})} → Keeps P m → Keeps P (if_resolved core m)
  if_resolved-Keeps h = Keeps-bind Keeps-get λ s. Keeps-if _ h (Keeps-pure tt)

  finish_at_eof-Keeps : Keeps P (finish_at_eof core)
  finish_at_eof-Keeps = Keeps-bind Keeps-get λ s.
      Keeps-seq
        (Keeps-if _ (Keeps-pure tt)
          (Keeps-seq (Keeps-modify _ (λ t h. frame t _ _ _ _ _ _ _ _ h)) (process_bytes-Keeps 0 _)))
        finish-Keeps

  read_chunk-Keeps :
      (offset : ℕ) (bytes : Bytes) (eof : Bool) → Keeps P (read_chunk core offset bytes eof)
  unfolding read_chunk
  read_chunk-Keeps offset bytes eof = Keeps-bind (resolve_bom-Keeps bytes eof) λ rest.
      Keeps-seq (if_resolved-Keeps (Keeps-if _ (Keeps-pure tt) (process_bytes-Keeps _ rest)))
        (Keeps-if _ finish_at_eof-Keeps (Keeps-pure tt))

  pub feed_chunk-Keeps :
      (offset : ℕ) (bytes : Bytes) (eof : Bool) → Keeps P (feed_chunk core offset bytes eof)
  unfolding feed_chunk
  feed_chunk-Keeps offset bytes eof = Keeps-bind Keeps-get λ s. Keeps-seq (Keeps-throw_if _ _) (
      Keeps-seq (Keeps-throw_if _ _) (
        Keeps-bind (Keeps-some_or _ _) λ n.
          Keeps-seq (Keeps-modify _ (λ t h. frame t _ _ _ _ _ _ _ _ h)) (
            Keeps-seq (read_chunk-Keeps offset bytes eof)
              (Keeps-bind Keeps-get λ t. Keeps-bind (Keeps-lift _) λ m. Keeps-pure _))))
