-- ===== src/Csv/Decoder/Limits.antt =====
-- Fields, diagnostics and the bytes of the batch stay within their limits in a decoder (csv.rs).
use tabulark.Base.{
  ℕ, ◌≤◌, ◌≡◌, Bool, List, [], ◌∷◌, Option, none, some, arith, length, length-append,
}
use tabulark.Text.{Bytes}
use tabulark.State.{state_of, done, fail, Outcome, monad, ◌>>◌, modify}
use tabulark.State.Keeps.{
  Keeps, Keeps-bind, Keeps-seq, Keeps-modify, Keeps-get, Keeps-some_or, Keeps-throw_if, Keeps-if,
  Keeps-pure, Keeps-lift,
}
use tabulark.Csv.Core.{CsvCore}
use tabulark.Csv.Options.{strict, CsvDiagnostic}
use tabulark.Csv.Builder.{StringColumnBuilder, push}
use tabulark.Csv.Decoder.{
  RangeDecoder, handle_diagnostic, append_field, make_text, select_field, finish_field, push_row,
  emit_row, finish_record, build_batch, then_some, invalid_field,
}

push-le :
    (v : Option Bytes) (limit n : ℕ) (b : StringColumnBuilder)
    → n ≤ limit
    → (state_of (push v limit (b, n))).1 ≤ limit
unfolding push monad
push-le none limit n b le = ground arith
push-le (some v) limit n b le = ground arith

push_row-le :
    (limit n : ℕ) (bs : List StringColumnBuilder) (vs : List Bytes) (valids : List Bool)
    (any : List StringColumnBuilder)
    → n ≤ limit
    → (state_of (push_row limit bs vs valids (any, n))).1 ≤ limit
unfolding push_row
push_row-le limit n [] vs valids any le = le
push_row-le limit n (b ∷ bs) [] valids any le = le
push_row-le limit n (b ∷ bs) (v ∷ vs) [] any le = le
push_row-le limit n (b ∷ bs) (v ∷ vs) (valid ∷ valids) any le =
    pushed (push (then_some valid v) limit (b, n)) (push-le (then_some valid v) limit n b le)
      (λ m l. push_row-le limit m bs vs valids bs l)
  where
    Count : Type 0
    Count = Outcome (List StringColumnBuilder × ℕ) (Unit {0})

    rest :
        (c : StringColumnBuilder) (o : Count)
        → (state_of o).1 ≤ limit
        → (state_of (elim o as (λ _. Count) [
          | fail e (cs, m) ↦ fail e (c ∷ cs, m)
          | done _ (cs, m) ↦ done tt (c ∷ cs, m)
        ])).1
          ≤ limit
    rest c (fail e (cs, m)) l = l
    rest c (done _ (cs, m)) l = l

    pushed :
        (o : Outcome (StringColumnBuilder × ℕ) (Unit {0}))
        → (state_of o).1 ≤ limit
        → ((m : ℕ) → m ≤ limit → (state_of (push_row limit bs vs valids (bs, m))).1 ≤ limit)
        → (state_of (elim o as (λ _. Count) [
          | fail e (c, m) ↦ fail e (c ∷ bs, m)
          | done _ (c, m) ↦ elim (push_row limit bs vs valids (bs, m)) as (λ _. Count) [
            | fail e (cs, k) ↦ fail e (c ∷ cs, k)
            | done _ (cs, k) ↦ done tt (c ∷ cs, k)
          ]
        ])).1
          ≤ limit
    pushed (fail e (c, m)) l next = l
    pushed (done _ (c, m)) l next = rest c (push_row limit bs vs valids (bs, m)) (next m l)

module _ (core : CsvCore) where
  pub record IsBounded (s : RangeDecoder core) : Type 0 where
    pub field_limit : length s.field ≤ s.options.limits.max_field_bytes
    pub diagnostic_limit : length s.diagnostics ≤ s.options.limits.max_diagnostics
    pub strict_clean : s.options.mode ≡ strict → s.diagnostics ≡ []
    pub batch_limit : s.batch_bytes ≤ s.options.limits.max_batch_bytes

  pub handle_diagnostic-IsBounded : (d : CsvDiagnostic) → Keeps IsBounded (handle_diagnostic core d)
  unfolding handle_diagnostic
  handle_diagnostic-IsBounded d = record {
    keep = λ s h. ground (arith, length-append s.diagnostics (d ∷ []));
  }

  pub append_field-IsBounded : (bytes : Bytes) → Keeps IsBounded (append_field core bytes)
  unfolding append_field monad
  append_field-IsBounded bytes = record {
    keep = λ s h. ground (arith, length-append s.field bytes);
  }

  -- The text that replaces an invalid field may be longer, but the field is cleared with it.
  take_text-IsBounded : (i : ℕ) → Keeps IsBounded (make_text core >> modify (select_field core i))
  unfolding make_text handle_diagnostic monad
  take_text-IsBounded i = record {
    keep = λ s h. ground (arith, length-append s.diagnostics (invalid_field core s ∷ []));
  }

  pub finish_field-IsBounded : Keeps IsBounded (finish_field core)
  unfolding finish_field
  finish_field-IsBounded = Keeps-bind Keeps-get λ s. Keeps-bind (Keeps-some_or _ _) λ n.
      Keeps-seq (Keeps-modify _ (λ t h. ground arith)) (
        Keeps-seq (Keeps-throw_if _ _) (
          Keeps-bind (Keeps-some_or _ _) λ c.
            Keeps-bind (Keeps-if _ (Keeps-lift _) (Keeps-pure _))
              λ e. Keeps-if _ (take_text-IsBounded _) (Keeps-modify _ (λ t h. ground arith))))

  emit_row-IsBounded : Keeps IsBounded (emit_row core)
  unfolding emit_row
  emit_row-IsBounded = record {
    keep = λ s h. ground (
      arith,
      push_row-le s.options.limits.max_batch_bytes s.batch_bytes s.builders s.selected_values
          s.selected_valid s.builders h.batch_limit,
    );
  }

  pub finish_record-IsBounded : Keeps IsBounded (finish_record core)
  unfolding finish_record
  finish_record-IsBounded = Keeps-bind Keeps-get λ s.
      Keeps-seq (Keeps-if _ (Keeps-pure tt) (handle_diagnostic-IsBounded _)) (
        Keeps-bind (Keeps-if _ (Keeps-lift _) (Keeps-pure _)) λ e.
          Keeps-seq (Keeps-if _ emit_row-IsBounded (Keeps-pure tt)) (
            Keeps-seq (Keeps-modify _ (λ t h. ground arith))
              (Keeps-bind (Keeps-some_or _ _) λ r. Keeps-modify _ (λ t h. ground arith))))

  pub build_batch-IsBounded : (complete : Bool) → Keeps IsBounded (build_batch core complete)
  unfolding build_batch
  build_batch-IsBounded complete = Keeps-bind Keeps-get λ s. Keeps-bind (Keeps-lift _) λ r.
      Keeps-seq (Keeps-modify _ (λ t h. ground arith))
        (Keeps-bind (Keeps-lift _) λ cs. Keeps-pure _)
