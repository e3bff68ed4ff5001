-- ===== src/Model/Convert/Reading.antt =====
-- What a converted batch (model.rs) holds: the data, offsets and validity of each column.
use tabulark.Base.{All}
use tabulark.Base.{
  ℕ, ◌+◌, ◌-◌, ◌*◌, ◌≤◌, ◌≡◌, refl, arith, false, List, [], ◌∷◌, some, length, usize_max, u32_max,
  u64_max, le→leb,
}
use tabulark.State.{Outcome, done, >>=-step, monad}
use tabulark.Model.Schema.{is_empty}
use tabulark.Model.Strings.{StringColumnBatch, len, div_ceil}
use tabulark.Model.Types.{utf8, nesting_depth, is_utf8}
use tabulark.Model.Slices.{BatchBuffer, BufferSlice, new_bitmap}
use tabulark.Model.Pool.{Interner, intern_batch_buffer}
use tabulark.Model.Pool.Interning.{IsInterned}
use tabulark.Model.Pool.Reading.{
  IsWhole, Grown, Grown-trans, Grown-length, IsWhole-Grown, Interned, intern_batch_buffer-Interned,
}
use tabulark.Model.Layout.{ArrayDescriptor, descriptor, new_descriptor, variable_width}
use tabulark.Model.Typed.{TypedColumnBatch, new_typed_column, is_variable_width}
use tabulark.Model.Convert.{describe, to_typed_column, offset_bytes, to_le_bytes}

-- A column of strings within the bounds of its machine integers, with a bit for each value.
pub record IsColumn (c : StringColumnBatch) : Type 0 where
  pub named : is_empty c.column_id ≡ false
  pub addressable :
      (length c.data_bytes ≤ usize_max)
      × (length c.offsets * 4 ≤ usize_max)
      × (length c.validity ≤ usize_max)
  pub words : All (λ o. o ≤ u32_max) c.offsets
  pub bits : length c.validity ≡ div_ceil (length c.offsets - 1) 8

abbrev pub array_of : StringColumnBatch → BufferSlice → BufferSlice → BufferSlice → ArrayDescriptor
array_of c values offsets validity =
    descriptor utf8 (len c) (some (record { buffer = validity; bit_offset = 0 }))
      (variable_width offsets values)

-- A typed column over the buffers of a column of strings.
pub record Represents (buffers : List BatchBuffer) (c : StringColumnBatch) (t : TypedColumnBatch)
    : Type 0 where
  pub values : BufferSlice
  pub offsets : BufferSlice
  pub validity : BufferSlice
  pub same_id : t.column_id ≡ c.column_id
  pub native_is : t.native ≡ array_of c values offsets validity
  pub display_is : t.display ≡ array_of c values offsets validity
  pub has_values : IsWhole buffers c.data_bytes values
  pub has_offsets : IsWhole buffers (offset_bytes c.offsets) offsets
  pub has_validity : IsWhole buffers c.validity validity

pub Represents-Grown :
    {n : ℕ} {a b : List BatchBuffer} {c : StringColumnBatch} {t : TypedColumnBatch}
    → Grown n a b
    → Represents a c t
    → Represents b c t
Represents-Grown g r = record {
  values = r.values;
  offsets = r.offsets;
  validity = r.validity;
  same_id = r.same_id;
  native_is = r.native_is;
  display_is = r.display_is;
  has_values = IsWhole-Grown g r.has_values;
  has_offsets = IsWhole-Grown g r.has_offsets;
  has_validity = IsWhole-Grown g r.has_validity;
}

pub length-offset_bytes : (offsets : List ℕ) → length (offset_bytes offsets) ≡ length offsets * 4
unfolding offset_bytes to_le_bytes
length-offset_bytes [] = refl
length-offset_bytes (o ∷ offsets) = omega (arith, length-offset_bytes offsets)

abbrev typed_column : StringColumnBatch → BufferSlice → BufferSlice → BufferSlice → TypedColumnBatch
typed_column c values offsets validity = record {
  column_id = c.column_id;
  native = array_of c values offsets validity;
  display = array_of c values offsets validity;
}

describe-typed_column :
    (c : StringColumnBatch) (values offsets validity : BufferSlice) (s : Interner)
    → IsColumn c
    → describe c.column_id (len c) values offsets validity s
      ≡ done (typed_column c values offsets validity) s
unfolding describe monad new_bitmap new_descriptor new_typed_column is_utf8 is_variable_width
    nesting_depth len
describe-typed_column c values offsets validity s v = rw v.named ground (arith, v.addressable)

-- What the conversion of a column leaves behind.
pub record Converted (c : StringColumnBatch) (s : Interner) : Type 0 where
  pub typed : TypedColumnBatch
  pub after : Interner
  pub runs : to_typed_column c s ≡ done typed after
  pub represents : Represents after.buffers c typed
  pub grown : Grown 3 s.buffers after.buffers
  pub in_order : IsInterned after

convert-Converted :
    (c : StringColumnBatch) (s s1 s2 s3 : Interner) (values offsets validity : BufferSlice)
    → IsColumn c
    → intern_batch_buffer c.data_bytes s ≡ done values s1
    → Interned c.data_bytes s.buffers s1.buffers values
    → intern_batch_buffer (offset_bytes c.offsets) s1 ≡ done offsets s2
    → Interned (offset_bytes c.offsets) s1.buffers s2.buffers offsets
    → intern_batch_buffer c.validity s2 ≡ done validity s3
    → Interned c.validity s2.buffers s3.buffers validity
    → IsInterned s3
    → Converted c s
unfolding to_typed_column monad len
convert-Converted c s s1 s2 s3 values offsets validity v e1 k1 e2 k2 e3 k3 o = record {
  typed = typed_column c values offsets validity;
  after = s3;
  runs = >>=-step (intern_batch_buffer c.data_bytes) _ s s1 values answer e1 (
      >>=-step (intern_batch_buffer (offset_bytes c.offsets)) _ s1 s2 offsets answer e2 (
        >>=-step (intern_batch_buffer c.validity) _ s2 s3 validity answer e3 (
          rw (le→leb (length c.offsets - 1) u64_max (omega (arith, v.addressable.1)))
            (describe-typed_column c values offsets validity s3 v))));
  represents = record {
    values = values;
    offsets = offsets;
    validity = validity;
    same_id = refl;
    native_is = refl;
    display_is = refl;
    has_values = IsWhole-Grown k3.grown (IsWhole-Grown k2.grown k1.whole);
    has_offsets = IsWhole-Grown k3.grown k2.whole;
    has_validity = k3.whole;
  };
  grown = Grown-trans (Grown-trans k1.grown k2.grown) k3.grown;
  in_order = o;
}
  where
    answer : Outcome Interner TypedColumnBatch
    answer = done (typed_column c values offsets validity) s3

-- One column: it is represented over a pool with at most three entries more.
pub to_typed_column-Converted :
    (c : StringColumnBatch) (s : Interner)
    → IsColumn c
    → IsInterned s
    → length s.buffers + 3 ≤ u32_max
    → Converted c s
to_typed_column-Converted c s v o room =
    let (values, s1, e1, k1, o1) =
      intern_batch_buffer-Interned c.data_bytes s o (omega (arith, v.addressable.0))
        (omega arith) in
    let (offsets, s2, e2, k2, o2) =
      intern_batch_buffer-Interned (offset_bytes c.offsets) s1 o1
        (omega (arith, v.addressable.1, length-offset_bytes c.offsets))
        (omega (arith, Grown-length k1.grown)) in
    let (validity, s3, e3, k3, o3) =
      intern_batch_buffer-Interned c.validity s2 o2 (omega (arith, v.addressable.2))
        (omega (arith, Grown-length k1.grown, Grown-length k2.grown)) in
    convert-Converted c s s1 s2 s3 values offsets validity v e1 k1 e2 k2 e3 k3 o3
