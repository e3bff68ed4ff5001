-- ===== src/Model/Layout.antt =====
-- src/model.rs: array descriptors over a buffer pool, and the checks that their views lie within it.
pub mod Within
pub mod Backed
use tabulark.Base.{
  ℕ, ◌+◌, Bool, true, false, ◌&&◌, List, [], ◌∷◌, Option, none, some, ltb, leb, ℤ, length,
  get_elem?, checked_add, checked_mul, try_from, u64_max, usize_max,
}
use tabulark.Text.{Bytes, show}
use tabulark.Error.{
  Result, ok, new, with_detail, number, invalid_argument, resource_limit, ok_or, fail_if, ◌>>=◌,
  ◌>>◌,
}
use tabulark.Model.Range.{validate_safe_integer}
use tabulark.Model.Types.{TableDataType, nesting_depth}
use tabulark.Model.Slices.{BatchBuffer, BufferSlice, BitmapSlice, byte_end}

-- The vectors of children are lists of the block's own. The fields of a descriptor are its data
-- type, length, validity and layout.
mutual
  pub data ArrayDescriptor : Type 0 where
    descriptor : TableDataType → ℕ → Option BitmapSlice → ArrayLayout → ArrayDescriptor

  pub data ArrayLayout : Type 0 where
    null : ArrayLayout
    bitmap : BitmapSlice → ArrayLayout
    fixed_width : BufferSlice → ArrayLayout
    -- offsets, values
    variable_width : BufferSlice → BufferSlice → ArrayLayout
    -- views, buffers
    view : BufferSlice → List BufferSlice → ArrayLayout
    -- offsets, values
    list : BufferSlice → ArrayDescriptor → ArrayLayout
    -- offsets, sizes, values
    list_view : BufferSlice → BufferSlice → ArrayDescriptor → ArrayLayout
    fixed_size_list : ArrayDescriptor → ArrayLayout
    struct : ArrayDescriptors → ArrayLayout
    -- type ids, offsets, fields
    union : BufferSlice → Option BufferSlice → UnionArrays → ArrayLayout
    -- keys, values
    dictionary : ArrayDescriptor → ArrayDescriptor → ArrayLayout
    -- run ends, values
    run_end_encoded : ArrayDescriptor → ArrayDescriptor → ArrayLayout

  pub data ArrayDescriptors : Type 0 where
    no_arrays : ArrayDescriptors
    array_and : ArrayDescriptor → ArrayDescriptors → ArrayDescriptors

  -- A type id and the values of that child.
  pub data UnionArray : Type 0 where
    union_array : ℤ → ArrayDescriptor → UnionArray

  pub data UnionArrays : Type 0 where
    no_children : UnionArrays
    child_and : UnionArray → UnionArrays → UnionArrays

abbrev pub data_type : ArrayDescriptor → TableDataType
data_type (descriptor t count validity layout) = t

abbrev pub len : ArrayDescriptor → ℕ
len (descriptor t count validity layout) = count

abbrev pub layout_of : ArrayDescriptor → ArrayLayout
layout_of (descriptor t count validity layout) = layout

abbrev pub validity_of : ArrayDescriptor → Option BitmapSlice
validity_of (descriptor t count validity layout) = validity

-- `MAX_DATA_TYPE_NESTING_DEPTH`
abbrev pub max_nesting_depth : ℕ
max_nesting_depth = 64

-- `ArrayDescriptor::new`
unfoldable pub new_descriptor :
    TableDataType → ℕ → Option BitmapSlice → ArrayLayout → Result ArrayDescriptor
unfolding validate_safe_integer nesting_depth
new_descriptor t count validity layout = do
  validate_safe_integer "array length" count
  fail_if (ltb max_nesting_depth (nesting_depth t)) (
      with_detail
        (with_detail (new resource_limit "array data type exceeds the maximum nesting depth")
          "nestingDepth" (number (nesting_depth t)))
        "maxNestingDepth" (number max_nesting_depth))
  ok (descriptor t count validity layout)

-- `usize::try_from(byte_end).ok().is_none_or(|end| end > buffer.data.len())`
abbrev pub is_past : Option ℕ → ℕ → Bool
is_past none count = true
is_past (some end) count = ltb count end

unfoldable pub validate_buffer : BufferSlice → List BatchBuffer → Result (Unit {0})
unfolding byte_end
validate_buffer slice buffers = do
  buffer ← ok_or (get_elem? buffers slice.buffer_index) (
      with_detail (new invalid_argument "buffer slice references a missing pool entry")
        "bufferIndex" (number slice.buffer_index))
  end ← byte_end slice
  fail_if (is_past (try_from usize_max end) (length buffer.bytes)) (
      with_detail
        (with_detail
          (with_detail (new invalid_argument "buffer slice exceeds its pool entry") "bufferIndex"
            (number slice.buffer_index))
          "byteEnd" (number end))
        "bufferLength" (number (length buffer.bytes)))

unfoldable pub validate_bitmap : BitmapSlice → ℕ → List BatchBuffer → Result (Unit {0})
unfolding validate_buffer
validate_bitmap bits count buffers = do
  validate_buffer bits.buffer buffers
  available ←
      ok_or (checked_mul u64_max bits.buffer.byte_length 8)
        (new invalid_argument "bitmap size overflows")
  required ←
      ok_or (checked_add u64_max bits.bit_offset count)
        (new invalid_argument "bitmap range overflows")
  fail_if (ltb available required)
      (new invalid_argument "bitmap slice is shorter than its logical array")

-- `if let Some(validity) = array.validity`, and the same for the offsets of a union.
unfoldable pub validate_validity : Option BitmapSlice → ℕ → List BatchBuffer → Result (Unit {0})
unfolding validate_bitmap
validate_validity none count buffers = ok tt
validate_validity (some bits) count buffers = validate_bitmap bits count buffers

unfoldable pub validate_offsets : Option BufferSlice → List BatchBuffer → Result (Unit {0})
unfolding validate_buffer
validate_offsets none buffers = ok tt
validate_offsets (some offsets) buffers = validate_buffer offsets buffers

unfoldable pub validate_views : List BufferSlice → List BatchBuffer → Result (Unit {0})
unfolding validate_buffer
validate_views [] buffers = ok tt
validate_views (s ∷ slices) buffers = do validate_buffer s buffers; validate_views slices buffers

unfoldable mutual
  unfolding validate_buffer validate_bitmap validate_validity validate_offsets validate_views

  pub validate_array_buffers : ArrayDescriptor → List BatchBuffer → Result (Unit {0})
  validate_array_buffers (descriptor t count validity layout) buffers = do
    validate_validity validity count buffers
    validate_layout layout count buffers

  -- The match of `validate_array_buffers`.
  pub validate_layout : ArrayLayout → ℕ → List BatchBuffer → Result (Unit {0})
  validate_layout null count buffers = ok tt
  validate_layout (bitmap values) count buffers = validate_bitmap values count buffers
  validate_layout (fixed_width values) count buffers = validate_buffer values buffers
  validate_layout (variable_width offsets values) count buffers = do
    validate_buffer offsets buffers
    validate_buffer values buffers
  validate_layout (view views view_buffers) count buffers = do
    validate_buffer views buffers
    validate_views view_buffers buffers
  validate_layout (list offsets values) count buffers = do
    validate_buffer offsets buffers
    validate_array_buffers values buffers
  validate_layout (list_view offsets sizes values) count buffers = do
    validate_buffer offsets buffers
    validate_buffer sizes buffers
    validate_array_buffers values buffers
  validate_layout (fixed_size_list values) count buffers = validate_array_buffers values buffers
  validate_layout (struct fields) count buffers = validate_fields fields buffers
  validate_layout (union type_ids offsets fields) count buffers = do
    validate_buffer type_ids buffers
    validate_offsets offsets buffers
    validate_children fields buffers
  validate_layout (dictionary keys values) count buffers = do
    validate_array_buffers keys buffers
    validate_array_buffers values buffers
  validate_layout (run_end_encoded run_ends values) count buffers = do
    validate_array_buffers run_ends buffers
    validate_array_buffers values buffers

  pub validate_fields : ArrayDescriptors → List BatchBuffer → Result (Unit {0})
  validate_fields no_arrays buffers = ok tt
  validate_fields (array_and field fields) buffers = do
    validate_array_buffers field buffers
    validate_fields fields buffers

  pub validate_child : UnionArray → List BatchBuffer → Result (Unit {0})
  validate_child (union_array type_id values) buffers = validate_array_buffers values buffers

  pub validate_children : UnionArrays → List BatchBuffer → Result (Unit {0})
  validate_children no_children buffers = ok tt
  validate_children (child_and child children) buffers = do
    validate_child child buffers
    validate_children children buffers
