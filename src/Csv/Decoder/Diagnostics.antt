-- ===== src/Csv/Decoder/Diagnostics.antt =====
-- A decoder only adds to its diagnostics (csv.rs).
use mathlib.Core.List.{append_assoc}
use tabulark.Base.{ℕ, ◌≡◌, ap, ◌∙◌, Bool, List, [], ◌∷◌, ◌++◌, length, ltb, Bool-cases, inl, inr}
use tabulark.Text.{Bytes}
use tabulark.State.{state_of, Outcome, done, fail}
use tabulark.Csv.Builder.{StringColumnBuilder}
use tabulark.State.Keeps.{
  Keeps, Keeps-bind, Keeps-seq, Keeps-modify, Keeps-get, Keeps-some_or, Keeps-throw_if, Keeps-if,
  Keeps-pure, Keeps-lift,
}
use tabulark.Csv.Core.{CsvCore}
use tabulark.Csv.Options.{CsvDiagnostic, DelimitedOptions, ParseMode, strict, lenient}
use tabulark.Csv.Diagnostics.{retain}
use tabulark.Csv.Decoder.{
  RangeDecoder, handle_diagnostic, append_field, make_text, finish_field, push_row, emit_row,
  store_row, finish_record, build_batch,
}

-- `ds` comes first in a list.
abbrev pub Extends : List CsvDiagnostic → List CsvDiagnostic → Type 0
Extends ds l = (later : List CsvDiagnostic) × (l ≡ ds ++ later)

retain-Extends :
    (o : DelimitedOptions) (ds l : List CsvDiagnostic) (d : CsvDiagnostic)
    → Extends ds l
    → Extends ds (retain o l d)
retain-Extends o ds l d (later, e) = elim (Bool-cases (ltb (length l) o.limits.max_diagnostics)) [
  | inl t ↦ rw t (later ++ d ∷ [], ap (λ k. k ++ d ∷ []) e ∙ append_assoc ds later (d ∷ []))
  | inr t ↦ rw t (later, e)
]

module _ (core : CsvCore) (ds : List CsvDiagnostic) where
  abbrev pub HasFirst : RangeDecoder core → Type 0
  HasFirst s = Extends ds s.diagnostics

  pub handle_diagnostic-HasFirst : (d : CsvDiagnostic) → Keeps HasFirst (handle_diagnostic core d)
  unfolding handle_diagnostic
  handle_diagnostic-HasFirst d = record { keep = λ s h. go s h s.options.mode }
    where
      go :
          (s : RangeDecoder core)
          → HasFirst s
          → (m : ParseMode)
          → HasFirst (
              state_of
                (handle_diagnostic core d (record s { options = record s.options { mode = m } })))
      go s h strict = h
      go s h lenient = retain-Extends s.options ds s.diagnostics d h

  pub append_field-HasFirst : (bytes : Bytes) → Keeps HasFirst (append_field core bytes)
  unfolding append_field
  append_field-HasFirst bytes = Keeps-bind Keeps-get λ s.
      Keeps-bind (Keeps-some_or _ _) λ n. Keeps-seq (Keeps-throw_if _ _) (Keeps-modify _ (λ t h. h))

  make_text-HasFirst : Keeps HasFirst (make_text core)
  unfolding make_text
  make_text-HasFirst = Keeps-bind Keeps-get λ s.
      Keeps-if _ (Keeps-pure tt)
        (Keeps-seq (handle_diagnostic-HasFirst _) (Keeps-modify _ (λ t h. h)))

  pub finish_field-HasFirst : Keeps HasFirst (finish_field core)
  unfolding finish_field
  finish_field-HasFirst = Keeps-bind Keeps-get λ s. Keeps-bind (Keeps-some_or _ _) λ n.
      Keeps-seq (Keeps-modify _ (λ t h. h)) (
        Keeps-seq (Keeps-throw_if _ _) (
          Keeps-bind (Keeps-some_or _ _) λ c.
            Keeps-bind (Keeps-if _ (Keeps-lift _) (Keeps-pure _)) λ e.
              Keeps-if _ (Keeps-seq make_text-HasFirst (Keeps-modify _ (λ t h. h)))
                (Keeps-modify _ (λ t h. h))))

  emit_row-HasFirst : Keeps HasFirst (emit_row core)
  unfolding emit_row
  emit_row-HasFirst = record {
    keep = λ s h. stored s h (
        push_row s.options.limits.max_batch_bytes s.builders s.selected_values s.selected_valid
          (s.builders, s.batch_bytes));
  }
    where
      stored :
          (s : RangeDecoder core)
          → HasFirst s
          → (o : Outcome (List StringColumnBuilder × ℕ) (Unit {0}))
          → HasFirst (state_of (store_row core s o))
      stored s h (fail e (bs, n)) = h
      stored s h (done _ (bs, n)) = h

  pub finish_record-HasFirst : Keeps HasFirst (finish_record core)
  unfolding finish_record
  finish_record-HasFirst = Keeps-bind Keeps-get λ s.
      Keeps-seq (Keeps-if _ (Keeps-pure tt) (handle_diagnostic-HasFirst _)) (
        Keeps-bind (Keeps-if _ (Keeps-lift _) (Keeps-pure _)) λ e.
          Keeps-seq (Keeps-if _ emit_row-HasFirst (Keeps-pure tt)) (
            Keeps-seq (Keeps-modify _ (λ t h. h))
              (Keeps-bind (Keeps-some_or _ _) λ r. Keeps-modify _ (λ t h. h))))

  pub build_batch-HasFirst : (complete : Bool) → Keeps HasFirst (build_batch core complete)
  unfolding build_batch
  build_batch-HasFirst complete = Keeps-bind Keeps-get λ s.
      Keeps-bind (Keeps-lift _)
        λ r. Keeps-seq (Keeps-modify _ (λ t h. h)) (Keeps-bind (Keeps-lift _) λ cs. Keeps-pure _)
