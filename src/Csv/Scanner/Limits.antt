-- ===== src/Csv/Scanner/Limits.antt =====
-- Fields, columns and diagnostics stay within their limits (csv.rs).
use tabulark.Base.{
  ℕ, zero, suc, ◌+◌, ◌-◌, ◌≤◌, ◌≡◌, refl, ◌∙◌, List, [], ◌∷◌, ◌++◌, arith, length, length-append,
  inl, inr, get_elem?, ◌<◌,
}
use tabulark.Text.{Bytes, decimal}
use tabulark.Error.{ok, Result-cases}
use tabulark.State.{state_of, modify, lift, monad}
use tabulark.State.Keeps.{
  Keeps, Keeps-bind, Keeps-seq, Keeps-modify, Keeps-get, Keeps-some_or, Keeps-throw_if, Keeps-if,
  Keeps-pure,
}
use tabulark.Model.Schema.{ColumnSchema, new_column}
use tabulark.Csv.Core.{CsvCore}
use tabulark.Csv.Options.{strict, CsvDiagnostic}
use tabulark.Csv.Scanner.{
  CsvScanner, handle_diagnostic, append_field, finish_field, add_columns, ensure_columns,
  finish_record, take_field, name_or, given_name, fit_schema, count_row,
}

-- Column `n`, `n + 1`, … in this order.
abbrev pub HasIndexes : ℕ → List ColumnSchema → Type 0
HasIndexes n [] = Unit {0}
HasIndexes n (c ∷ cs) = (c.index ≡ n) × HasIndexes (n + 1) cs

module _ (core : CsvCore) where
  pub record IsLimited (s : CsvScanner core) : Type 0 where
    pub field_limit : length s.field ≤ s.options.limits.max_field_bytes
    pub column_limit : length s.columns ≤ s.options.limits.max_columns
    pub diagnostic_limit : length s.diagnostics ≤ s.options.limits.max_diagnostics
    pub strict_clean : s.options.mode ≡ strict → s.diagnostics ≡ []
    pub indexes : HasIndexes 0 s.columns

  pub handle_diagnostic-IsLimited : (d : CsvDiagnostic) → Keeps IsLimited (handle_diagnostic core d)
  unfolding handle_diagnostic
  handle_diagnostic-IsLimited d = record {
    keep = λ s h. ground (arith, length-append s.diagnostics (d ∷ []));
  }

  pub append_field-IsLimited : (bytes : Bytes) → Keeps IsLimited (append_field core bytes)
  unfolding append_field monad
  append_field-IsLimited bytes = record {
    keep = λ s h. ground (arith, length-append s.field bytes);
  }

  take_field-IsLimited : (s : CsvScanner core) → IsLimited s → IsLimited (take_field core s)
  take_field-IsLimited s h = ground arith

  set_fields-IsLimited : (n : ℕ) → Keeps IsLimited (modify (λ t. record t { record_fields = n }))
  set_fields-IsLimited n = Keeps-modify _ (λ s h. ground arith)

  pub finish_field-IsLimited : Keeps IsLimited (finish_field core)
  unfolding finish_field
  finish_field-IsLimited = Keeps-bind Keeps-get λ s. Keeps-bind (Keeps-some_or _ _) λ n.
      Keeps-seq (set_fields-IsLimited n) (
        Keeps-seq (Keeps-throw_if _ _) (
          Keeps-seq (Keeps-if _ (Keeps-pure tt) (handle_diagnostic-IsLimited _))
            (Keeps-modify _ take_field-IsLimited)))

  HasIndexes-snoc :
      (n : ℕ) (cs : List ColumnSchema) (c : ColumnSchema)
      → HasIndexes n cs
      → c.index ≡ n + length cs
      → HasIndexes n (cs ++ c ∷ [])
  HasIndexes-snoc n [] c h e = (omega arith, tt)
  HasIndexes-snoc n (d ∷ cs) c h e = (h.0, HasIndexes-snoc (n + 1) cs c h.1 (omega arith))

  new_column-index :
      (id name : Bytes) (index : ℕ) (c : ColumnSchema)
      → new_column id name index ≡ ok c
      → c.index ≡ index
  unfolding new_column
  new_column-index id name index c e = ground arith

  -- One more column, while there is room.
  grown-IsLimited :
      (s : CsvScanner core) (c : ColumnSchema) (n : ℕ)
      → c.index ≡ length s.columns
      → length s.columns < s.options.limits.max_columns
      → IsLimited s
      → IsLimited (record s { columns = s.columns ++ c ∷ []; column_string_bytes = n })
  grown-IsLimited s c n e l h = record {
    field_limit = h.field_limit;
    column_limit = omega (arith, length-append s.columns (c ∷ []));
    diagnostic_limit = h.diagnostic_limit;
    strict_clean = h.strict_clean;
    indexes = HasIndexes-snoc 0 s.columns c h.indexes (omega arith);
  }

  -- The columns that are still to be added fit.
  add_columns-IsLimited :
      (count index : ℕ) (names : List Bytes) (s : CsvScanner core)
      → index ≡ length s.columns
      → count + index ≤ s.options.limits.max_columns
      → IsLimited s
      → IsLimited (state_of (add_columns core count index names s))
  unfolding add_columns monad
  add_columns-IsLimited zero index names s e l h = h
  add_columns-IsLimited (suc count) index names s e l h =
      elim (Result-cases (
        new_column (b'c' ∷ decimal index) (name_or (given_name (get_elem? names index)) index)
          index)) [
            | inl (c, k) ↦
                rw (k, lift)
                  (add_columns-IsLimited count (index + 1) names _
                    (omega (arith, e, length-append s.columns (c ∷ []))) (omega arith)
                    (grown-IsLimited s c _ (new_column-index _ _ index c k ∙ e) (omega arith) h))
            | inr (x, k) ↦ rw (k, lift) h
          ]

  ensure_columns-IsLimited :
      (count : ℕ) (names : List Bytes) → Keeps IsLimited (ensure_columns core count names)
  unfolding ensure_columns monad
  ensure_columns-IsLimited count names = record {
    keep = λ s h.
        ground
          (arith, add_columns-IsLimited (count - length s.columns) (length s.columns) names s refl);
  }

  fit_schema-IsLimited : (fields : ℕ) → Keeps IsLimited (fit_schema core fields)
  fit_schema-IsLimited fields = Keeps-bind Keeps-get λ s.
      Keeps-if _ (ensure_columns-IsLimited fields []) (
        Keeps-if _ (Keeps-pure tt) (
          Keeps-seq (handle_diagnostic-IsLimited _)
            (Keeps-if _ (ensure_columns-IsLimited fields []) (Keeps-pure tt))))

  count_row-IsLimited : Keeps IsLimited (count_row core)
  count_row-IsLimited =
      Keeps-bind Keeps-get
        λ s. Keeps-bind (Keeps-some_or _ _) λ n. Keeps-modify _ (λ s h. ground arith)

  pub finish_record-IsLimited : Keeps IsLimited (finish_record core)
  unfolding finish_record
  finish_record-IsLimited = Keeps-bind Keeps-get λ s. Keeps-seq (set_fields-IsLimited 0) (
      Keeps-seq
        (Keeps-if _
          (Keeps-seq (Keeps-modify _ (λ t h. ground arith))
            (Keeps-seq (ensure_columns-IsLimited _ _) (Keeps-modify _ (λ t h. ground arith))))
          (Keeps-seq (Keeps-modify _ (λ t h. ground arith))
            (Keeps-seq (fit_schema-IsLimited _) count_row-IsLimited)))
        (Keeps-modify _ (λ t h. ground arith)))
