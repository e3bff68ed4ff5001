-- ===== src/Model/Typed.antt =====
-- src/model.rs: typed columns and batches, whose arrays are described over one pool of buffers.
use tabulark.Base.{
  ℕ, Bool, true, false, not, ◌||◌, List, [], ◌∷◌, Option, none, some, ◌==◌, length, try_from,
  u64_max,
}
use tabulark.Text.{Bytes}
use tabulark.Error.{Result, ok, new, invalid_argument, fail_if, ◌>>◌, with_detail, utf8_string}
use tabulark.Model.Range.{RangeRequest, validate_public, validate_safe_integer}
use tabulark.Model.Schema.{is_empty}
use tabulark.Model.Types.{is_utf8}
use tabulark.Model.Slices.{BatchBuffer}
use tabulark.Model.Layout.{
  ArrayDescriptor, ArrayLayout, variable_width, data_type, len, layout_of, validate_array_buffers,
}

pub record TypedColumnBatch : Type 0 where
  pub column_id : Bytes
  pub native : ArrayDescriptor
  pub display : ArrayDescriptor

-- `matches!(layout, ArrayLayout::VariableWidth { .. })`
unfoldable pub is_variable_width : ArrayLayout → Bool
is_variable_width (variable_width offsets values) = true
is_variable_width _ = false

-- `TypedColumnBatch::new`
unfoldable pub new_typed_column :
    Bytes → ArrayDescriptor → ArrayDescriptor → Result TypedColumnBatch
unfolding is_utf8 is_variable_width
new_typed_column column_id native display = do
  fail_if (is_empty column_id) (new invalid_argument "typed batch column id must not be empty")
  fail_if (not (len native == len display))
      (new invalid_argument "native and display arrays must have equal lengths")
  fail_if (not (is_utf8 (data_type display)) || not (is_variable_width (layout_of display)))
      (new invalid_argument "display arrays must use the UTF-8 variable-width layout")
  ok (record { column_id = column_id; native = native; display = display })

-- `BATCH_LAYOUT_VERSION`
abbrev pub batch_layout_version : ℕ
batch_layout_version = 1

pub record TypedTableBatch : Type 0 where
  pub layout_version : ℕ
  pub table_id : Bytes
  pub revision : ℕ
  pub schema_version : ℕ
  pub range : RangeRequest
  pub complete : Bool
  pub buffers : List BatchBuffer
  pub columns : List TypedColumnBatch

-- The loop over the columns.
unfoldable pub check_columns :
    RangeRequest → List BatchBuffer → List TypedColumnBatch → Result (Unit {0})
unfolding validate_array_buffers
check_columns range buffers [] = ok tt
check_columns range buffers (c ∷ columns) = do
  fail_if (not (len c.native == range.row_count)) (
      with_detail
        (new invalid_argument "typed batch array length does not match its returned range")
        "columnId" (utf8_string c.column_id))
  validate_array_buffers c.native buffers
  validate_array_buffers c.display buffers
  check_columns range buffers columns

-- `u64::try_from(columns.len()).ok() == Some(count)`
abbrev pub is_count : Option ℕ → ℕ → Bool
is_count none count = false
is_count (some n) count = n == count

-- `TypedTableBatch::new`
unfoldable pub new_typed_batch :
    Bytes
    → ℕ
    → ℕ
    → RangeRequest
    → Bool
    → List BatchBuffer
    → List TypedColumnBatch
    → Result TypedTableBatch
unfolding validate_public validate_safe_integer check_columns
new_typed_batch table_id revision schema_version range complete buffers columns = do
  validate_public range
  validate_safe_integer "batch revision" revision
  validate_safe_integer "batch schema version" schema_version
  fail_if (not (is_count (try_from u64_max (length columns)) range.column_count))
      (new invalid_argument "typed batch column count does not match its returned range")
  check_columns range buffers columns
  ok (record {
    layout_version = batch_layout_version;
    table_id = table_id;
    revision = revision;
    schema_version = schema_version;
    range = range;
    complete = complete;
    buffers = buffers;
    columns = columns;
  })
