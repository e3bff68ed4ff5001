-- ===== src/Tests/Typed.antt =====
-- Examples for typed batches (model.rs).
use tabulark.Base.{ℕ, ◌≡◌, ◌↔◌, refl, arith, true, false, List, [], ◌∷◌, none, some, All, AllPairs}
use tabulark.Text.{codes}
use tabulark.Error.{ok}
use tabulark.Model.Strings.{StringColumnBatch, len}
use tabulark.Model.Batch.{TableBatch}
use tabulark.Model.Types.{uint8, table_field}
use tabulark.Model.Types
use tabulark.Model.Slices.{BatchBuffer, BufferSlice, byte_end}
use tabulark.Model.Pool.{Interner, intern_batch_buffer, add_buffer}
use tabulark.Model.Pool.Interning.{IsInterned, position, add_buffer-IsInterned}
use tabulark.Model.Pool.Refine.{Refines, intern_plain, intern_batch_buffer-Refines}
use tabulark.Model.Layout.{
  ArrayDescriptor, descriptor, fixed_width, list, validate_array_buffers, validate_buffer,
  validate_bitmap, validate_validity,
}
use tabulark.Model.Layout.Backed.{IsIn, views_of, validate_array_buffers-views}
use tabulark.Model.Typed.{TypedTableBatch}
use tabulark.Model.Convert.{to_typed, into_typed, no_buffers}
use tabulark.Model.Convert.Same.{to_typed-into_typed}
use tabulark.Model.Convert.Whole.{IsBatch, ReadsAs, to_typed-reads, no_buffers-IsInterned}

-- Two columns of two rows, with the same offsets.
abbrev names : StringColumnBatch
names = record {
  column_id = codes "c0";
  data_bytes = codes "abcd";
  offsets = 0 ∷ 2 ∷ 4 ∷ [];
  validity = 3 ∷ [];
}

abbrev cities : StringColumnBatch
cities = record {
  column_id = codes "c1";
  data_bytes = codes "efgh";
  offsets = 0 ∷ 2 ∷ 4 ∷ [];
  validity = 3 ∷ [];
}

abbrev batch : TableBatch
batch = record {
  table_id = codes "t";
  revision = 1;
  schema_version = 1;
  range = record { row_start = 0; row_count = 2; column_start = 0; column_count = 2 };
  complete = true;
  columns = names ∷ cities ∷ [];
}

batch-IsBatch : IsBatch batch
unfolding len
batch-IsBatch = record {
  safe = (omega arith, omega arith);
  revision_safe = omega arith;
  schema_version_safe = omega arith;
  width = refl;
  height = (refl, (refl, tt));
  in_bounds = (
    record {
      named = refl;
      addressable = (omega arith, omega arith, omega arith);
      words = (omega arith, (omega arith, (omega arith, tt)));
      bits = refl;
    },
    (
      record {
        named = refl;
        addressable = (omega arith, omega arith, omega arith);
        words = (omega arith, (omega arith, (omega arith, tt)));
        bits = refl;
      },
      tt,
    ),
  );
  room = omega arith;
}

to_typed-reads_example :
    (t : TypedTableBatch) × (to_typed batch ≡ ok t)
    × AllPairs (ReadsAs t.buffers) batch.columns t.columns
to_typed-reads_example = to_typed-reads batch batch-IsBatch

to_typed-into_typed_example : to_typed batch ≡ into_typed batch
to_typed-into_typed_example = to_typed-into_typed batch (omega arith, (omega arith, tt))

-- A pool with one entry.
abbrev pooled : Interner
pooled = add_buffer 0 (codes "abcd") no_buffers

pooled-IsInterned : IsInterned pooled
unfolding position
pooled-IsInterned = add_buffer-IsInterned no_buffers (codes "abcd") no_buffers-IsInterned refl

intern_batch_buffer-Refines_example :
    Refines (intern_batch_buffer (codes "abcd") pooled) (intern_plain (codes "abcd") pooled.buffers)
intern_batch_buffer-Refines_example =
    intern_batch_buffer-Refines (codes "abcd") pooled pooled-IsInterned

-- A list of integers over the pool.
abbrev pool : List BatchBuffer
pool = record { bytes = codes "abcdefgh" } ∷ []

abbrev part : ℕ → ℕ → BufferSlice
part offset count = record { buffer_index = 0; byte_offset = offset; byte_length = count }

abbrev nested : ArrayDescriptor
nested =
    descriptor (Types.list (table_field (codes "item") uint8 false [])) 1
      (some (record { buffer = part 0 1; bit_offset = 7 }))
      (list (part 0 8) (descriptor uint8 4 none (fixed_width (part 4 4))))

validate_array_buffers-views_example :
    (validate_array_buffers nested pool ≡ ok tt) ↔ All (IsIn pool) (views_of nested)
validate_array_buffers-views_example = validate_array_buffers-views pool nested (omega arith, tt)

nested_accepted : validate_array_buffers nested pool ≡ ok tt
unfolding validate_array_buffers validate_buffer validate_bitmap validate_validity byte_end
nested_accepted = refl
