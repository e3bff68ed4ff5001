-- ===== src/Csv/Decoder.antt =====
-- src/csv.rs: `RangeDecoder`, which decodes one planned range: its state, fields and records.
pub mod Limits
pub mod Rows
pub mod Diagnostics
use tabulark.Base.{
  ℕ, ◌+◌, ◌-◌, Bool, true, false, ◌&&◌, List, [], ◌∷◌, ◌++◌, map, Option, none, some, leb, ltb,
  ◌==◌, if◌then◌else◌, length, take, drop, set, replicate, u64_max, usize_max, checked_add,
  checked_mul, try_from,
}
use tabulark.Text.{Bytes, codes}
use tabulark.Utf8.{is_valid, lossy}
use tabulark.Error.{Result, ok, err, new, resource_limit, ok_or, fail_if}
use tabulark.Error
use tabulark.State.{M, Outcome, done, fail, pure, get, modify, lift, some_or, throw_if, ◌>>=◌, ◌>>◌}
use tabulark.Model.Range.{row_end, new_range}
use tabulark.Model.Schema.{Schema}
use tabulark.Model.Strings.{StringColumnBatch}
use tabulark.Model.Batch.{TableBatch}
use tabulark.Csv.Core.{CsvCore}
use tabulark.Csv.Options.{
  DelimitedOptions, lenient, strict, CsvDiagnostic, ragged_row, invalid_utf8, RangePlan,
  source_offset,
}
use tabulark.Csv.Diagnostics.{diagnostic_error, retain}
use tabulark.Csv.Quotes.{QuoteTracker, new_tracker}
use tabulark.Csv.Builder.{StringColumnBuilder, new_builder, push, finish}
use tabulark.Csv.Scanner.{ragged_message}

-- `valid.then_some(value)`
abbrev pub then_some : Bool → Bytes → Option Bytes
then_some true value = some value
then_some false value = none

-- What the loop over the builders left behind: builders, bytes in the batch, and the failure.
unfoldable pub push_row :
    ℕ
    → List StringColumnBuilder
    → List Bytes
    → List Bool
    → M (List StringColumnBuilder × ℕ) (Unit {0})
push_row limit (b ∷ bs) (value ∷ values) (valid ∷ valids) (_, n) =
    elim (push (then_some valid value) limit (b, n)) [
      | fail e (b', n') ↦ fail e (b' ∷ bs, n')
      | done _ (b', n') ↦ elim (push_row limit bs values valids (bs, n')) [
        | fail e (bs', m) ↦ fail e (b' ∷ bs', m)
        | done _ (bs', m) ↦ done tt (b' ∷ bs', m)
      ]
    ]
push_row limit builders values valids (_, n) = done tt (builders, n)

-- `builders.into_iter().map(StringColumnBuilder::finish).collect()`
unfoldable pub finish_all : List StringColumnBuilder → Result (List StringColumnBatch)
finish_all [] = ok []
finish_all (b ∷ bs) = Error.◌>>=◌ (finish b) λ c. Error.◌>>=◌ (finish_all bs) λ cs. ok (c ∷ cs)

module _ (core : CsvCore) where
  pub record RangeDecoder : Type 0 where
    pub options : DelimitedOptions
    pub plan : RangePlan
    pub schema : Schema
    pub reader : core.Reader
    pub lexical : QuoteTracker
    pub expected_offset : ℕ
    pub field : Bytes
    pub field_index : ℕ
    pub current_row : ℕ
    pub selected_values : List Bytes
    pub selected_valid : List Bool
    pub builders : List StringColumnBuilder
    pub returned_rows : ℕ
    pub batch_bytes : ℕ
    pub diagnostics : List CsvDiagnostic
    pub done : Bool

  abbrev pub Decode : Type 0 → Type 0
  Decode = M RangeDecoder

  -- `RangeDecoder::new`. The slice of the schema is in bounds for a plan of its scanner.
  unfoldable pub new_decoder : DelimitedOptions → RangePlan → Schema → Result RangeDecoder
  new_decoder o plan schema =
      Error.◌>>=◌
        (ok_or (try_from usize_max plan.request.column_count)
          (new resource_limit "range column count exceeds usize"))
        λ selected.
          Error.◌>>=◌
            (ok_or (try_from usize_max plan.request.column_start)
              (new resource_limit "range column start exceeds usize"))
            λ start.
              Error.◌>>=◌
                (ok_or (checked_mul usize_max selected 4)
                  (new resource_limit "batch byte length overflow"))
                λ batch_bytes.
                  Error.◌>>◌
                    (fail_if (ltb o.limits.max_batch_bytes batch_bytes)
                      (new resource_limit "range response exceeds the configured byte limit"))
                    (ok (record {
                      options = o;
                      plan = plan;
                      schema = schema;
                      reader = core.build o.delimiter;
                      lexical = new_tracker o.delimiter;
                      expected_offset = source_offset plan;
                      field = [];
                      field_index = 0;
                      current_row = plan.checkpoint.row;
                      selected_values = replicate selected [];
                      selected_valid = replicate selected false;
                      builders =
                          map (λ c. new_builder c.id) (take selected (drop start schema.columns));
                      returned_rows = 0;
                      batch_bytes = batch_bytes;
                      diagnostics = [];
                      done = plan.request.row_count == 0;
                    }))

  unfoldable pub handle_diagnostic : CsvDiagnostic → Decode (Unit {0})
  handle_diagnostic d s = elim s.options.mode [
    | strict ↦ fail (diagnostic_error d) s
    | lenient ↦ done tt (record s { diagnostics = retain s.options s.diagnostics d })
  ]

  unfoldable pub append_field : Bytes → Decode (Unit {0})
  append_field bytes = do
    s ← get
    new_len ←
        some_or (checked_add usize_max (length s.field) (length bytes))
          (new resource_limit "CSV field length overflow")
    throw_if (ltb s.options.limits.max_field_bytes new_len)
        (new resource_limit "CSV field exceeds the configured byte limit")
    modify (λ t. record t { field = t.field ++ bytes })

  -- The row at hand is one of those requested.
  abbrev pub in_rows : RangeDecoder → ℕ → Bool
  in_rows s end = leb s.plan.request.row_start s.current_row && ltb s.current_row end

  abbrev pub in_columns : RangeDecoder → ℕ → Bool
  in_columns s index =
      leb s.plan.request.column_start index
      && ltb index (s.plan.request.column_start + length s.selected_values)

  abbrev pub invalid_field : RangeDecoder → CsvDiagnostic
  invalid_field s = record {
    kind = invalid_utf8;
    row = some s.current_row;
    byte_offset = s.expected_offset;
    message = "field contains invalid UTF-8; replacement characters were used";
  }

  -- A field that is no text is replaced.
  unfoldable pub make_text : Decode (Unit {0})
  make_text = do
    s ← get
    if is_valid s.field then pure tt else (do
      handle_diagnostic (invalid_field s)
      modify (λ t. record t { field = lossy t.field }))

  -- The field is swapped into its place among the selected values, and what came out is cleared.
  abbrev pub select_field : ℕ → RangeDecoder → RangeDecoder
  select_field i s = record s {
    field = [];
    selected_values = set s.selected_values i s.field;
    selected_valid = set s.selected_valid i true;
  }

  unfoldable pub finish_field : Decode (Unit {0})
  finish_field = do
    s ← get
    index ←
        some_or (checked_add usize_max s.field_index 1)
          (new resource_limit "CSV column count overflow")
    modify (λ t. record t { field_index = index })
    throw_if (ltb s.options.limits.max_columns index)
        (new resource_limit "CSV record exceeds the configured column limit")
    _ ←
        some_or (try_from usize_max s.plan.request.column_start)
          (new resource_limit "column start exceeds usize")
    end ←
        if leb s.plan.request.row_start s.current_row then lift (row_end s.plan.request) else pure 0
    if in_rows s end && in_columns s (index - 1)
        then (do make_text; modify (select_field (index - 1 - s.plan.request.column_start)))
        else modify (λ t. record t { field = [] })

  abbrev ragged : RangeDecoder → CsvDiagnostic
  ragged s = record {
    kind = ragged_row;
    row = some s.current_row;
    byte_offset = s.expected_offset;
    message = ragged_message s.field_index " fields but the schema has " (length s.schema.columns);
  }

  abbrev pub store_row :
      RangeDecoder
      → Outcome (List StringColumnBuilder × ℕ) (Unit {0})
      → Outcome RangeDecoder (Unit {0})
  store_row s (fail e (bs, n)) = fail e (record s { builders = bs; batch_bytes = n })
  store_row s (done _ (bs, n)) =
      done tt (record s { builders = bs; batch_bytes = n; returned_rows = s.returned_rows + 1 })

  -- Each selected value, or the lack of it, goes to its builder.
  unfoldable pub emit_row : Decode (Unit {0})
  emit_row s = store_row s (
      push_row s.options.limits.max_batch_bytes s.builders s.selected_values s.selected_valid
        (s.builders, s.batch_bytes))

  -- The state for the next record.
  abbrev pub clear_row : RangeDecoder → RangeDecoder
  clear_row s = record s {
    field_index = 0;
    selected_values = map (λ _. []) s.selected_values;
    selected_valid = map (λ _. false) s.selected_valid;
  }

  unfoldable pub finish_record : Decode (Unit {0})
  finish_record = do
    s ← get
    if s.field_index == length s.schema.columns then pure tt else handle_diagnostic (ragged s)
    end ←
        if leb s.plan.request.row_start s.current_row then lift (row_end s.plan.request) else pure 0
    if in_rows s end then emit_row else pure tt
    modify clear_row
    row ←
        some_or (checked_add u64_max s.current_row 1)
          (new resource_limit "range row count overflow")
    modify (λ t. record t {
      current_row = row;
      done = (if t.returned_rows == t.plan.request.row_count then true else t.done);
    })

  -- `build_batch`: the builders are used up.
  unfoldable pub build_batch : Bool → Decode TableBatch
  build_batch complete = do
    s ← get
    range ← lift (
        new_range s.plan.request.row_start s.returned_rows s.plan.request.column_start
          s.plan.request.column_count)
    modify (λ t. record t { builders = [] })
    columns ← lift (finish_all s.builders)
    pure (record {
      table_id = codes "table-0";
      revision = 0;
      schema_version = s.schema.version;
      range = range;
      complete = complete;
      columns = columns;
    })
