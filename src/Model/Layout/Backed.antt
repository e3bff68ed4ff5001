-- ===== src/Model/Layout/Backed.antt =====
-- What the checks of array descriptors (model.rs) accept: descriptors whose views lie in the pool.
use tabulark.Base.{
  ℕ, ◌≡◌, ◌↔◌, refl, List, [], ◌∷◌, ◌++◌, map, All-append, All-split, Option, none, some, All,
}
use tabulark.Error.{Result, ok, ◌>>◌, seq_iff}
use tabulark.Model.Slices.{BatchBuffer, BufferSlice, BitmapSlice}
use tabulark.Model.Layout.{
  ArrayDescriptor, descriptor, ArrayLayout, ArrayDescriptors, no_arrays, array_and, UnionArray,
  union_array, UnionArrays, no_children, child_and, null, bitmap, fixed_width, variable_width, view,
  list, list_view, fixed_size_list, struct, union, dictionary, run_end_encoded, validate_buffer,
  validate_validity, validate_offsets, validate_views, validate_array_buffers, validate_layout,
  validate_fields, validate_child, validate_children,
}
use tabulark.Model.Layout.Within.{
  AreAddressable, IsWithin, HasBits, validate_buffer-IsWithin, validate_bitmap-HasBits,
}

-- A reference from a descriptor into the pool: bytes, or the bits of so many values.
pub data View : Type 0 where
  bytes : BufferSlice → View
  bits : BitmapSlice → ℕ → View

abbrev pub IsIn : List BatchBuffer → View → Type 0
IsIn buffers (bytes s) = IsWithin buffers s
IsIn buffers (bits b count) = HasBits buffers count b

abbrev pub validity_views : Option BitmapSlice → ℕ → List View
validity_views none count = []
validity_views (some b) count = bits b count ∷ []

abbrev pub offset_views : Option BufferSlice → List View
offset_views none = []
offset_views (some s) = bytes s ∷ []

-- Every reference of a descriptor and of those inside it.
unfoldable mutual
  pub views_of : ArrayDescriptor → List View
  views_of (descriptor t count validity layout) =
      validity_views validity count ++ layout_views layout count

  pub layout_views : ArrayLayout → ℕ → List View
  layout_views null count = []
  layout_views (bitmap values) count = bits values count ∷ []
  layout_views (fixed_width values) count = bytes values ∷ []
  layout_views (variable_width offsets values) count = bytes offsets ∷ bytes values ∷ []
  layout_views (view views view_buffers) count = bytes views ∷ map bytes view_buffers
  layout_views (list offsets values) count = bytes offsets ∷ views_of values
  layout_views (list_view offsets sizes values) count =
      bytes offsets ∷ bytes sizes ∷ views_of values
  layout_views (fixed_size_list values) count = views_of values
  layout_views (struct fields) count = fields_views fields
  layout_views (union type_ids offsets fields) count =
      bytes type_ids ∷ offset_views offsets ++ children_views fields
  layout_views (dictionary keys values) count = views_of keys ++ views_of values
  layout_views (run_end_encoded run_ends values) count = views_of run_ends ++ views_of values

  pub fields_views : ArrayDescriptors → List View
  fields_views no_arrays = []
  fields_views (array_and field fields) = views_of field ++ fields_views fields

  pub child_views : UnionArray → List View
  child_views (union_array type_id values) = views_of values

  pub children_views : UnionArrays → List View
  children_views no_children = []
  children_views (child_and child children) = child_views child ++ children_views children

one_view : {P : Type 0} {r : Result (Unit {0})} → (r ≡ ok tt) ↔ P → (r ≡ ok tt) ↔ (P × Unit {0})
one_view p = (λ h. (p.0 h, tt), λ h. p.1 h.0)

no_view : (ok (tt {0}) ≡ ok (tt {0})) ↔ Unit {0}
no_view = (λ h. tt, λ h. refl)

module _ (buffers : List BatchBuffer) (v : AreAddressable buffers) where
  -- Two checks in a row, each of a list of references.
  seq-views :
      (xs ys : List View) (m : Result (Unit {0})) {n : Result (Unit {0})}
      → (m ≡ ok tt) ↔ All (IsIn buffers) xs
      → (n ≡ ok tt) ↔ All (IsIn buffers) ys
      → (m >> n ≡ ok tt) ↔ All (IsIn buffers) (xs ++ ys)
  seq-views xs ys m p q =
      let s = seq_iff m p (λ _. q) in
      (
        λ h. All-append (IsIn buffers) xs ys (s.0 h).0 (s.0 h).1,
        λ h. s.1 (All-split (IsIn buffers) xs ys h),
      )

  validity_iff :
      (validity : Option BitmapSlice) (count : ℕ)
      → (validate_validity validity count buffers ≡ ok tt)
        ↔ All (IsIn buffers) (validity_views validity count)
  unfolding validate_validity
  validity_iff none count = no_view
  validity_iff (some b) count = one_view (validate_bitmap-HasBits buffers v b count)

  offsets_iff :
      (offsets : Option BufferSlice)
      → (validate_offsets offsets buffers ≡ ok tt) ↔ All (IsIn buffers) (offset_views offsets)
  unfolding validate_offsets
  offsets_iff none = no_view
  offsets_iff (some s) = one_view (validate_buffer-IsWithin buffers v s)

  views_iff :
      (slices : List BufferSlice)
      → (validate_views slices buffers ≡ ok tt) ↔ All (IsIn buffers) (map bytes slices)
  unfolding validate_views
  views_iff [] = no_view
  views_iff (s ∷ slices) =
      seq_iff (validate_buffer s buffers) (validate_buffer-IsWithin buffers v s)
        (λ _. views_iff slices)

  mutual
    unfolding validate_array_buffers views_of

    array_iff :
        (a : ArrayDescriptor)
        → (validate_array_buffers a buffers ≡ ok tt) ↔ All (IsIn buffers) (views_of a)
    array_iff (descriptor t count validity layout) =
        seq-views (validity_views validity count) (layout_views layout count)
          (validate_validity validity count buffers) (validity_iff validity count)
          (layout_iff layout count)

    layout_iff :
        (l : ArrayLayout) (count : ℕ)
        → (validate_layout l count buffers ≡ ok tt) ↔ All (IsIn buffers) (layout_views l count)
    layout_iff null count = no_view
    layout_iff (bitmap values) count = one_view (validate_bitmap-HasBits buffers v values count)
    layout_iff (fixed_width values) count = one_view (validate_buffer-IsWithin buffers v values)
    layout_iff (variable_width offsets values) count =
        seq_iff (validate_buffer offsets buffers) (validate_buffer-IsWithin buffers v offsets)
          (λ _. one_view (validate_buffer-IsWithin buffers v values))
    layout_iff (view views view_buffers) count =
        seq_iff (validate_buffer views buffers) (validate_buffer-IsWithin buffers v views)
          (λ _. views_iff view_buffers)
    layout_iff (list offsets values) count =
        seq_iff (validate_buffer offsets buffers) (validate_buffer-IsWithin buffers v offsets)
          (λ _. array_iff values)
    layout_iff (list_view offsets sizes values) count =
        seq_iff (validate_buffer offsets buffers) (validate_buffer-IsWithin buffers v offsets) λ _.
          seq_iff (validate_buffer sizes buffers) (validate_buffer-IsWithin buffers v sizes)
            (λ _. array_iff values)
    layout_iff (fixed_size_list values) count = array_iff values
    layout_iff (struct fields) count = fields_iff fields
    layout_iff (union type_ids offsets fields) count =
        seq_iff (validate_buffer type_ids buffers) (validate_buffer-IsWithin buffers v type_ids)
          λ _.
            seq-views (offset_views offsets) (children_views fields)
              (validate_offsets offsets buffers) (offsets_iff offsets) (children_iff fields)
    layout_iff (dictionary keys values) count =
        seq-views (views_of keys) (views_of values) (validate_array_buffers keys buffers)
          (array_iff keys) (array_iff values)
    layout_iff (run_end_encoded run_ends values) count =
        seq-views (views_of run_ends) (views_of values) (validate_array_buffers run_ends buffers)
          (array_iff run_ends) (array_iff values)

    fields_iff :
        (fields : ArrayDescriptors)
        → (validate_fields fields buffers ≡ ok tt) ↔ All (IsIn buffers) (fields_views fields)
    fields_iff no_arrays = no_view
    fields_iff (array_and field fields) =
        seq-views (views_of field) (fields_views fields) (validate_array_buffers field buffers)
          (array_iff field) (fields_iff fields)

    child_iff :
        (child : UnionArray)
        → (validate_child child buffers ≡ ok tt) ↔ All (IsIn buffers) (child_views child)
    child_iff (union_array type_id values) = array_iff values

    children_iff :
        (children : UnionArrays)
        → (validate_children children buffers ≡ ok tt)
          ↔ All (IsIn buffers) (children_views children)
    children_iff no_children = no_view
    children_iff (child_and child children) =
        seq-views (child_views child) (children_views children) (validate_child child buffers)
          (child_iff child) (children_iff children)

-- A descriptor passes its checks exactly if every reference of it and of the descriptors inside it
-- lies in the pool: slices within their entries, and bitmaps with a bit for each value.
pub validate_array_buffers-views :
    (buffers : List BatchBuffer) (a : ArrayDescriptor)
    → AreAddressable buffers
    → (validate_array_buffers a buffers ≡ ok tt) ↔ All (IsIn buffers) (views_of a)
validate_array_buffers-views buffers a v = array_iff buffers v a
