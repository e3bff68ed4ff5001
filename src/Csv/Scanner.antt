-- ===== src/Csv/Scanner.antt =====
-- src/csv.rs: the state of `CsvScanner`, and what it does with a field and with a record.
pub mod Index
pub mod Limits
use Prim.Native.String.{◌++◌ as str_append}
use tabulark.Base.{
  ℕ, zero, suc, ◌+◌, ◌-◌, ◌%◌, Bool, true, false, not, List, [], ◌∷◌, ◌++◌, Option, none, some, leb,
  ltb, ◌==◌, if◌then◌else◌, length, get_elem?, u64_max, usize_max, checked_add, saturating_add,
  String,
}
use tabulark.Text.{Bytes, codes, decimal, show}
use tabulark.Utf8.{is_valid, lossy}
use tabulark.Error.{TabularkError, new, with_detail, number, resource_limit}
use tabulark.State.{M, done, fail, pure, get, put, modify, lift, some_or, throw_if, ◌>>=◌, ◌>>◌}
use tabulark.Model.Schema.{ColumnSchema, new_column, is_empty}
use tabulark.Csv.Core.{CsvCore}
use tabulark.Csv.Options.{
  DelimitedOptions, ParseMode, lenient, strict, CsvDiagnostic, CsvCheckpoint, ragged_row,
  invalid_utf8,
}
use tabulark.Csv.Diagnostics.{diagnostic_error, retain}
use tabulark.Csv.Quotes.{QuoteTracker}

-- `names.get(index)` unless it is empty.
abbrev pub given_name : Option Bytes → Option Bytes
given_name none = none
given_name (some name) = if is_empty name then none else some name

-- `format!("column_{}", index + 1)` for a column without a name.
abbrev pub name_or : Option Bytes → ℕ → Bytes
name_or none index = codes "column_" ++ decimal (index + 1)
name_or (some name) index = name

-- The message for a record that does not fit the schema.
abbrev pub ragged_message : ℕ → String → ℕ → String
ragged_message fields middle columns =
    str_append "row has " (str_append (show fields) (str_append middle (show columns)))

module _ (core : CsvCore) where
  pub record CsvScanner : Type 0 where
    pub options : DelimitedOptions
    pub reader : core.Reader
    pub lexical : QuoteTracker
    pub bom_prefix : Bytes
    pub bom_resolved : Bool
    pub bytes_received : ℕ
    pub parser_offset : ℕ
    pub record_start_offset : ℕ
    pub field : Bytes
    pub record_fields : ℕ
    pub header_names : List Bytes
    pub header_pending : Bool
    pub rows : ℕ
    pub columns : List ColumnSchema
    pub column_string_bytes : ℕ
    pub schema_version : ℕ
    pub checkpoints : List CsvCheckpoint
    pub diagnostics : List CsvDiagnostic
    pub finished : Bool

  abbrev pub Scan : Type 0 → Type 0
  Scan = M CsvScanner

  unfoldable pub handle_diagnostic : CsvDiagnostic → Scan (Unit {0})
  handle_diagnostic d s = elim s.options.mode [
    | strict ↦ fail (diagnostic_error d) s
    | lenient ↦ done tt (record s { diagnostics = retain s.options s.diagnostics d })
  ]

  unfoldable pub append_field : Bytes → Scan (Unit {0})
  append_field bytes = do
    s ← get
    new_len ←
        some_or (checked_add usize_max (length s.field) (length bytes))
          (new resource_limit "CSV field length overflow")
    throw_if (ltb s.options.limits.max_field_bytes new_len) (
        with_detail (new resource_limit "CSV field exceeds the configured byte limit")
          "maxFieldBytes" (number s.options.limits.max_field_bytes))
    modify (λ t. record t { field = t.field ++ bytes })

  abbrev invalid_field : CsvScanner → CsvDiagnostic
  invalid_field s = record {
    kind = invalid_utf8;
    row = if s.header_pending then none else some s.rows;
    byte_offset = s.record_start_offset;
    message = "field contains invalid UTF-8; replacement characters were used";
  }

  -- The field becomes a column name, or is dropped.
  abbrev take_field : CsvScanner → CsvScanner
  take_field s =
      if s.header_pending
      then record s {
        field = [];
        header_names = s.header_names ++ (if is_valid s.field then s.field else lossy s.field) ∷ [];
      }
      else record s { field = [] }

  unfoldable pub finish_field : Scan (Unit {0})
  finish_field = do
    s ← get
    fields ←
        some_or (checked_add usize_max s.record_fields 1)
          (new resource_limit "CSV column count overflow")
    modify (λ t. record t { record_fields = fields })
    throw_if (ltb s.options.limits.max_columns fields) (
        with_detail (new resource_limit "CSV record exceeds the configured column limit")
          "maxColumns" (number s.options.limits.max_columns))
    if is_valid s.field then pure tt else handle_diagnostic (invalid_field s)
    modify take_field

  -- One column after another, for `count` rounds from column `index` on.
  unfoldable pub add_columns : ℕ → ℕ → List Bytes → Scan (Unit {0})
  add_columns zero index names = pure tt
  add_columns (suc count) index names = do
    let name = name_or (given_name (get_elem? names index)) index
    let id = b'c' ∷ decimal index
    let string_bytes =
        saturating_add usize_max (core.string_capacity id) (core.string_capacity name)
    column ← lift (new_column id name index)
    modify (λ s. record s {
      columns = s.columns ++ column ∷ [];
      column_string_bytes = saturating_add usize_max s.column_string_bytes string_bytes;
    })
    add_columns count (index + 1) names

  -- Without header names, `names` is empty.
  unfoldable pub ensure_columns : ℕ → List Bytes → Scan (Unit {0})
  ensure_columns count names = do
    s ← get
    throw_if (ltb s.options.limits.max_columns count)
        (new resource_limit "CSV schema exceeds the configured column limit")
    if leb count (length s.columns) then pure tt else (do
      add_columns (count - length s.columns) (length s.columns) names
      t ← get
      version ←
          some_or (checked_add u64_max t.schema_version 1)
            (new resource_limit "schema version overflow")
      modify (λ u. record u { schema_version = version }))

  abbrev ragged : ℕ → CsvScanner → CsvDiagnostic
  ragged fields s = record {
    kind = ragged_row;
    row = some s.rows;
    byte_offset = s.record_start_offset;
    message = ragged_message fields " fields but the current schema has " (length s.columns);
  }

  -- A checkpoint at the start of every `checkpoint_interval`th record.
  abbrev add_checkpoint : CsvScanner → CsvScanner
  add_checkpoint s =
      if s.rows % s.options.checkpoint_interval == 0
      then record s {
        checkpoints =
            s.checkpoints ++ record { row = s.rows; byte_offset = s.record_start_offset } ∷ [];
      }
      else s

  -- The schema meets a data record.
  abbrev fit_schema : ℕ → Scan (Unit {0})
  fit_schema fields = do
    s ← get
    if length s.columns == 0
        then ensure_columns fields []
        else if fields == length s.columns
        then pure tt
        else (do
          handle_diagnostic (ragged fields s)
          if ltb (length s.columns) fields then ensure_columns fields [] else pure tt)

  abbrev count_row : Scan (Unit {0})
  count_row = do
    s ← get
    rows ← some_or (checked_add u64_max s.rows 1) (new resource_limit "CSV row count overflow")
    modify (λ t. record t { rows = rows })

  unfoldable pub finish_record : Scan (Unit {0})
  finish_record = do
    s ← get
    let fields = s.record_fields
    modify (λ t. record t { record_fields = 0 })
    if s.header_pending
        then (do
          modify (λ t. record t { header_names = [] })
          ensure_columns fields s.header_names
          modify (λ t. record t { header_pending = false }))
        else (do modify add_checkpoint; fit_schema fields; count_row)
    modify (λ t. record t { record_start_offset = t.parser_offset })
