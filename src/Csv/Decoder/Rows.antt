-- ===== src/Csv/Decoder/Rows.antt =====
-- A decoder returns no more rows than were asked for (csv.rs).
use tabulark.Base.{◌-◌, ◌≤◌, Bool, arith}
use tabulark.Text.{Bytes}
use tabulark.State.{monad}
use tabulark.State.Keeps.{
  Keeps, Keeps-bind, Keeps-seq, Keeps-modify, Keeps-get, Keeps-some_or, Keeps-throw_if, Keeps-if,
  Keeps-pure, Keeps-lift,
}
use tabulark.Model.Range.{row_end, checked_end}
use tabulark.Csv.Core.{CsvCore}
use tabulark.Csv.Options.{CsvDiagnostic}
use tabulark.Csv.Decoder.{
  RangeDecoder, handle_diagnostic, append_field, make_text, finish_field, emit_row, finish_record,
  build_batch,
}

module _ (core : CsvCore) where
  pub record IsCounted (s : RangeDecoder core) : Type 0 where
    pub returned_le_request : s.returned_rows ≤ s.plan.request.row_count
    pub returned_le_passed : s.returned_rows ≤ s.current_row - s.plan.request.row_start

  pub handle_diagnostic-IsCounted : (d : CsvDiagnostic) → Keeps IsCounted (handle_diagnostic core d)
  unfolding handle_diagnostic
  handle_diagnostic-IsCounted d = record { keep = λ s h. ground arith }

  pub append_field-IsCounted : (bytes : Bytes) → Keeps IsCounted (append_field core bytes)
  unfolding append_field
  append_field-IsCounted bytes = Keeps-bind Keeps-get λ s.
      Keeps-bind (Keeps-some_or _ _)
        λ n. Keeps-seq (Keeps-throw_if _ _) (Keeps-modify _ (λ t h. ground arith))

  make_text-IsCounted : Keeps IsCounted (make_text core)
  unfolding make_text
  make_text-IsCounted = Keeps-bind Keeps-get λ s.
      Keeps-if _ (Keeps-pure tt)
        (Keeps-seq (handle_diagnostic-IsCounted _) (Keeps-modify _ (λ t h. ground arith)))

  pub finish_field-IsCounted : Keeps IsCounted (finish_field core)
  unfolding finish_field
  finish_field-IsCounted = Keeps-bind Keeps-get λ s. Keeps-bind (Keeps-some_or _ _) λ n.
      Keeps-seq (Keeps-modify _ (λ t h. ground arith)) (
        Keeps-seq (Keeps-throw_if _ _) (
          Keeps-bind (Keeps-some_or _ _) λ c.
            Keeps-bind (Keeps-if _ (Keeps-lift _) (Keeps-pure _)) λ e.
              Keeps-if _ (Keeps-seq make_text-IsCounted (Keeps-modify _ (λ t h. ground arith)))
                (Keeps-modify _ (λ t h. ground arith))))

  -- A row that is emitted is one of those requested, and is passed: the row counter cannot overflow,
  -- since the end of the request is a safe integer.
  pub finish_record-IsCounted : Keeps IsCounted (finish_record core)
  unfolding finish_record handle_diagnostic emit_row monad row_end checked_end
  finish_record-IsCounted = record { keep = λ s h. ground arith }

  pub build_batch-IsCounted : (complete : Bool) → Keeps IsCounted (build_batch core complete)
  unfolding build_batch
  build_batch-IsCounted complete = Keeps-bind Keeps-get λ s. Keeps-bind (Keeps-lift _) λ r.
      Keeps-seq (Keeps-modify _ (λ t h. ground arith))
        (Keeps-bind (Keeps-lift _) λ cs. Keeps-pure _)
