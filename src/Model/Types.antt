-- ===== src/Model/Types.antt =====
-- src/model.rs: `TableDataType`, the recursive types of columns, with the fields inside them.
use tabulark.Base.{ℕ, Bool, true, false, max, Option, List, ℤ, saturating_add, usize_max}
use tabulark.Text.{Bytes}

pub data TimeUnit : Type 0 where
  second millisecond microsecond nanosecond : TimeUnit

pub data IntervalUnit : Type 0 where
  year_month day_time month_day_nano : IntervalUnit

pub data UnionMode : Type 0 where
  sparse dense : UnionMode

-- The vectors of fields are lists of the block's own. Texts are UTF-8 bytes, and the metadata of a
-- field are its entries in the order of the keys.
mutual
  pub data TableDataType : Type 0 where
    unknown null boolean : TableDataType
    int8 int16 int32 int64 : TableDataType
    uint8 uint16 uint32 uint64 : TableDataType
    float16 float32 float64 : TableDataType
    timestamp : TimeUnit → Option Bytes → TableDataType
    date32 date64 : TableDataType
    time32 time64 duration : TimeUnit → TableDataType
    interval : IntervalUnit → TableDataType
    binary : TableDataType
    fixed_size_binary : ℤ → TableDataType
    large_binary binary_view utf8 large_utf8 utf8_view : TableDataType
    list list_view : TableField → TableDataType
    fixed_size_list : TableField → ℤ → TableDataType
    large_list large_list_view : TableField → TableDataType
    struct : TableFields → TableDataType
    union : UnionFields → UnionMode → TableDataType
    dictionary : TableDataType → TableDataType → TableDataType
    decimal32 decimal64 decimal128 decimal256 : ℕ → ℤ → TableDataType
    map : TableField → Bool → TableDataType
    run_end_encoded : TableField → TableField → TableDataType
    extension : Bytes → Option Bytes → TableDataType → TableDataType

  -- Name, type, whether null values may occur, and metadata.
  pub data TableField : Type 0 where
    table_field : Bytes → TableDataType → Bool → List (Bytes × Bytes) → TableField

  pub data TableFields : Type 0 where
    no_fields : TableFields
    field_and : TableField → TableFields → TableFields

  -- A type id and the field that it selects.
  pub data UnionField : Type 0 where
    union_field : ℤ → TableField → UnionField

  pub data UnionFields : Type 0 where
    no_choices : UnionFields
    choice_and : UnionField → UnionFields → UnionFields

-- `TableDataType::nesting_depth`, with the largest depth of a list of fields.
unfoldable mutual
  pub nesting_depth : TableDataType → ℕ
  nesting_depth (list field) = saturating_add usize_max 1 (field_depth field)
  nesting_depth (list_view field) = saturating_add usize_max 1 (field_depth field)
  nesting_depth (fixed_size_list field size) = saturating_add usize_max 1 (field_depth field)
  nesting_depth (large_list field) = saturating_add usize_max 1 (field_depth field)
  nesting_depth (large_list_view field) = saturating_add usize_max 1 (field_depth field)
  nesting_depth (map field sorted) = saturating_add usize_max 1 (field_depth field)
  nesting_depth (struct fields) = saturating_add usize_max 1 (fields_depth fields)
  nesting_depth (union fields mode) = saturating_add usize_max 1 (choices_depth fields)
  nesting_depth (dictionary key value) =
      saturating_add usize_max 1 (max (nesting_depth key) (nesting_depth value))
  nesting_depth (run_end_encoded run_ends values) =
      saturating_add usize_max 1 (max (field_depth run_ends) (field_depth values))
  nesting_depth (extension name metadata storage) =
      saturating_add usize_max 1 (nesting_depth storage)
  nesting_depth _ = saturating_add usize_max 1 0

  pub field_depth : TableField → ℕ
  field_depth (table_field name data_type nullable metadata) = nesting_depth data_type

  pub fields_depth : TableFields → ℕ
  fields_depth no_fields = 0
  fields_depth (field_and field fields) = max (field_depth field) (fields_depth fields)

  pub union_depth : UnionField → ℕ
  union_depth (union_field type_id field) = field_depth field

  pub choices_depth : UnionFields → ℕ
  choices_depth no_choices = 0
  choices_depth (choice_and choice choices) = max (union_depth choice) (choices_depth choices)

-- `data_type == &TableDataType::Utf8`
unfoldable pub is_utf8 : TableDataType → Bool
is_utf8 utf8 = true
is_utf8 _ = false
