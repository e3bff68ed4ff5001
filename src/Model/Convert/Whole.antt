-- ===== src/Model/Convert/Whole.antt =====
-- `to_typed` (model.rs) of a whole batch: it succeeds within its bounds, and every column reads back.
use tabulark.Base.{
  ◌+◌, ◌*◌, ◌≤◌, ◌≡◌, refl, ap, ◌∙◌, arith, List, [], ◌∷◌, some, All, length, subst, AllPairs,
  length-AllPairs, usize_max, u32_max, ==_iff,
}
use tabulark.Text.{Bytes}
use tabulark.Error.{ok}
use tabulark.State.{done, >>=-step, monad}
use tabulark.Model.Range.{RangeRequest, max_safe_integer, validate_safe_integer}
use tabulark.Model.Range.Bounds.{IsSafe, validate_public-IsSafe}
use tabulark.Model.Strings.{StringColumnBatch, len}
use tabulark.Model.Batch.{TableBatch}
use tabulark.Model.Slices.{BatchBuffer, BufferSlice, byte_end}
use tabulark.Model.Pool.{Interner}
use tabulark.Model.Pool.Interning.{IsInterned}
use tabulark.Model.Pool.Reading.{
  Grown, Grown-refl, Grown-trans, Grown-length, IsWhole, read, read-IsWhole,
}
use tabulark.Model.Layout.{len as count_of}
use tabulark.Model.Layout.{
  ArrayDescriptor, validate_array_buffers, validate_buffer, validate_bitmap, validate_validity,
}
use tabulark.Model.Typed.{
  TypedColumnBatch, TypedTableBatch, new_typed_batch, check_columns, batch_layout_version,
}
use tabulark.Model.Convert.{
  to_typed_column, to_typed_columns, to_typed, finish_typed, no_buffers, offset_bytes,
}
use tabulark.Model.Convert.Endian.{read_words, read_words-offset_bytes}
use tabulark.Model.Convert.Reading.{
  IsColumn, array_of, length-offset_bytes, Represents, Represents-Grown, Converted,
  to_typed_column-Converted,
}

record ConvertedAll (columns : List StringColumnBatch) (s : Interner) : Type 0 where
  typed : List TypedColumnBatch
  after : Interner
  runs : to_typed_columns columns s ≡ done typed after
  represent : AllPairs (Represents after.buffers) columns typed
  grown : Grown (3 * length columns) s.buffers after.buffers
  in_order : IsInterned after

Converted-cons :
    (c : StringColumnBatch) (columns : List StringColumnBatch) (s : Interner) (k : Converted c s)
    → ConvertedAll columns k.after
    → ConvertedAll (c ∷ columns) s
unfolding to_typed_columns monad
Converted-cons c columns s k r = record {
  typed = k.typed ∷ r.typed;
  after = r.after;
  runs =
      >>=-step (to_typed_column c) _ s k.after k.typed (done (k.typed ∷ r.typed) r.after) k.runs (
        >>=-step (to_typed_columns columns) _ k.after r.after r.typed
          (done (k.typed ∷ r.typed) r.after) r.runs refl);
  represent = (Represents-Grown r.grown k.represents, r.represent);
  grown =
      subst (λ n. Grown n s.buffers r.after.buffers) (omega arith) (Grown-trans k.grown r.grown);
  in_order = r.in_order;
}

to_typed_columns-ConvertedAll :
    (columns : List StringColumnBatch) (s : Interner)
    → All IsColumn columns
    → IsInterned s
    → length s.buffers + 3 * length columns ≤ u32_max
    → ConvertedAll columns s
unfolding to_typed_columns monad
to_typed_columns-ConvertedAll [] s v o room = record {
  typed = [];
  after = s;
  runs = refl;
  represent = tt;
  grown = Grown-refl s.buffers;
  in_order = o;
}
to_typed_columns-ConvertedAll (c ∷ columns) s v o room =
    let k = to_typed_column-Converted c s v.0 o (omega arith) in
    Converted-cons c columns s k (
      to_typed_columns-ConvertedAll columns k.after v.1 k.in_order
        (omega (arith, Grown-length k.grown)))

-- The checks of a column that is represented over the pool.
IsWhole-validates :
    (buffers : List BatchBuffer) (bytes : Bytes) (s : BufferSlice)
    → length bytes ≤ usize_max
    → IsWhole buffers bytes s
    → validate_buffer s buffers ≡ ok tt
unfolding validate_buffer byte_end
IsWhole-validates buffers bytes s h w = rw (w.entry, w.start, w.count) ground arith

array-validates :
    (buffers : List BatchBuffer) (c : StringColumnBatch) (values offsets validity : BufferSlice)
    → IsColumn c
    → IsWhole buffers c.data_bytes values
    → IsWhole buffers (offset_bytes c.offsets) offsets
    → IsWhole buffers c.validity validity
    → (a : ArrayDescriptor) → a ≡ array_of c values offsets validity
    → validate_array_buffers a buffers ≡ ok tt
unfolding validate_array_buffers validate_validity validate_bitmap len
array-validates buffers c values offsets validity v hv ho hb a e =
    rw
      (
        e,
        IsWhole-validates buffers c.validity validity (v.addressable.2) hb,
        IsWhole-validates buffers c.data_bytes values (v.addressable.0) hv,
        IsWhole-validates buffers (offset_bytes c.offsets) offsets
            (omega (arith, v.addressable.1, length-offset_bytes c.offsets)) ho,
        hb.count,
        v.bits,
      )
      ground (arith, v.addressable)

check_columns-passes :
    (range : RangeRequest) (buffers : List BatchBuffer) (columns : List StringColumnBatch)
    (typed : List TypedColumnBatch)
    → All IsColumn columns
    → All (λ c. len c ≡ range.row_count) columns
    → AllPairs (Represents buffers) columns typed
    → check_columns range buffers typed ≡ ok tt
unfolding check_columns
check_columns-passes range buffers [] [] v e r = refl
check_columns-passes range buffers (c ∷ columns) (t ∷ typed) v e r =
    let q = r.0 in
    let backed =
      array-validates buffers c q.values q.offsets q.validity v.0 q.has_values q.has_offsets
        q.has_validity in
    rw
      (
        backed t.native q.native_is,
        backed t.display q.display_is,
        ap count_of q.native_is ∙ e.0,
        (==_iff range.row_count range.row_count).1 refl,
      )
      (check_columns-passes range buffers columns typed v.1 e.1 r.1)
check_columns-passes range buffers [] (t ∷ typed) v e r = absurd r
check_columns-passes range buffers (c ∷ columns) [] v e r = absurd r

-- A batch of string columns within the bounds of the public range and of its pool.
pub record IsBatch (b : TableBatch) : Type 0 where
  pub safe : IsSafe b.range
  pub revision_safe : b.revision ≤ max_safe_integer
  pub schema_version_safe : b.schema_version ≤ max_safe_integer
  pub width : length b.columns ≡ b.range.column_count
  pub height : All (λ c. len c ≡ b.range.row_count) b.columns
  pub in_bounds : All IsColumn b.columns
  pub room : 3 * length b.columns ≤ u32_max

-- A typed column whose slices read as the buffers of a column of strings.
pub record ReadsAs (buffers : List BatchBuffer) (c : StringColumnBatch) (t : TypedColumnBatch)
    : Type 0 where
  pub values : BufferSlice
  pub offsets : BufferSlice
  pub validity : BufferSlice
  pub same_id : t.column_id ≡ c.column_id
  pub native_is : t.native ≡ array_of c values offsets validity
  pub display_is : t.display ≡ array_of c values offsets validity
  pub read_values : read buffers values ≡ some c.data_bytes
  pub read_offsets : read buffers offsets ≡ some (offset_bytes c.offsets)
  pub decoded_offsets : read_words (offset_bytes c.offsets) ≡ c.offsets
  pub read_validity : read buffers validity ≡ some c.validity

Represents-ReadsAs :
    (buffers : List BatchBuffer) (c : StringColumnBatch) (t : TypedColumnBatch)
    → IsColumn c
    → Represents buffers c t
    → ReadsAs buffers c t
Represents-ReadsAs buffers c t v r = record {
  values = r.values;
  offsets = r.offsets;
  validity = r.validity;
  same_id = r.same_id;
  native_is = r.native_is;
  display_is = r.display_is;
  read_values = read-IsWhole buffers c.data_bytes r.values r.has_values;
  read_offsets = read-IsWhole buffers (offset_bytes c.offsets) r.offsets r.has_offsets;
  decoded_offsets = read_words-offset_bytes c.offsets v.words;
  read_validity = read-IsWhole buffers c.validity r.validity r.has_validity;
}

all_ReadsAs :
    (buffers : List BatchBuffer) (columns : List StringColumnBatch) (typed : List TypedColumnBatch)
    → All IsColumn columns
    → AllPairs (Represents buffers) columns typed
    → AllPairs (ReadsAs buffers) columns typed
all_ReadsAs buffers [] [] v r = tt
all_ReadsAs buffers (c ∷ columns) (t ∷ typed) v r =
    (Represents-ReadsAs buffers c t v.0 r.0, all_ReadsAs buffers columns typed v.1 r.1)
all_ReadsAs buffers [] (t ∷ typed) v r = absurd r
all_ReadsAs buffers (c ∷ columns) [] v r = absurd r

pub no_buffers-IsInterned : IsInterned no_buffers
no_buffers-IsInterned = record { distinct = λ i j b g h. cc; indexed = λ i b g. cc }

new_typed_batch-accepts :
    (b : TableBatch) (buffers : List BatchBuffer) (typed : List TypedColumnBatch)
    → IsBatch b
    → length typed ≡ b.range.column_count
    → check_columns b.range buffers typed ≡ ok tt
    → new_typed_batch b.table_id b.revision b.schema_version b.range b.complete buffers typed
      ≡ ok (record {
        layout_version = batch_layout_version;
        table_id = b.table_id;
        revision = b.revision;
        schema_version = b.schema_version;
        range = b.range;
        complete = b.complete;
        buffers = buffers;
        columns = typed;
      })
unfolding new_typed_batch validate_safe_integer
new_typed_batch-accepts b buffers typed v e h =
    rw ((validate_public-IsSafe b.range).1 v.safe, h, e) ground
      (arith, v.safe, v.revision_safe, v.schema_version_safe)

-- Converting a batch within its bounds succeeds, and each typed column reads, through the slices of
-- its descriptors, as the data, the little-endian offsets and the validity of the column of strings
-- in its place, under the same id and for native and displayed values alike.
pub to_typed-reads :
    (b : TableBatch)
    → IsBatch b
    → (t : TypedTableBatch) × (to_typed b ≡ ok t) × AllPairs (ReadsAs t.buffers) b.columns t.columns
unfolding to_typed finish_typed
to_typed-reads b v =
    let k =
      to_typed_columns-ConvertedAll b.columns no_buffers v.in_bounds no_buffers-IsInterned
        (omega (arith, v.room)) in
    go k
  where
    go :
        ConvertedAll b.columns no_buffers
        → (t : TypedTableBatch) × (to_typed b ≡ ok t)
          × AllPairs (ReadsAs t.buffers) b.columns t.columns
    go k = (
      record {
        layout_version = batch_layout_version;
        table_id = b.table_id;
        revision = b.revision;
        schema_version = b.schema_version;
        range = b.range;
        complete = b.complete;
        buffers = k.after.buffers;
        columns = k.typed;
      },
      rw k.runs (
          new_typed_batch-accepts b k.after.buffers k.typed v
            (length-AllPairs (Represents k.after.buffers) b.columns k.typed k.represent ∙ v.width)
            (check_columns-passes b.range k.after.buffers b.columns k.typed v.in_bounds v.height
              k.represent)),
      all_ReadsAs k.after.buffers b.columns k.typed v.in_bounds k.represent,
    )
