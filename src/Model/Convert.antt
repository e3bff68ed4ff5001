-- ===== src/Model/Convert.antt =====
-- src/model.rs: `TableBatch::to_typed` and `into_typed`, from columns of strings to a typed batch.
pub mod Same
pub mod Reading
pub mod Whole
pub mod Endian
use tabulark.Base.{
  ℕ, ◌-◌, ◌/◌, ◌%◌, ◌^◌, List, [], ◌∷◌, ◌++◌, Option, none, some, length, try_from, u64_max,
}
use tabulark.Text.{Bytes}
use tabulark.Error.{TabularkError, Result, ok, err, new, resource_limit, ok_or}
use tabulark.State.{M, Outcome, done, fail, pure, lift, ◌>>=◌, ◌>>◌}
use tabulark.Model.Strings.{StringColumnBatch, len}
use tabulark.Model.Batch.{TableBatch}
use tabulark.Model.Types.{utf8}
use tabulark.Model.Slices.{BufferSlice, new_bitmap}
use tabulark.Model.Pool.{Interner, intern_batch_buffer}
use tabulark.Model.Layout.{new_descriptor, variable_width}
use tabulark.Model.Typed.{TypedColumnBatch, TypedTableBatch, new_typed_column, new_typed_batch}

-- `u32::to_le_bytes`
unfoldable pub to_le_bytes : ℕ → Bytes
to_le_bytes n = n % 256 ∷ (n / 2 ^ 8) % 256 ∷ (n / 2 ^ 16) % 256 ∷ (n / 2 ^ 24) % 256 ∷ []

unfoldable pub offset_bytes : List ℕ → Bytes
unfolding to_le_bytes
offset_bytes [] = []
offset_bytes (o ∷ offsets) = to_le_bytes o ++ offset_bytes offsets

abbrev pub too_many_rows : TabularkError
too_many_rows = new resource_limit "delimited batch row count exceeds the public range"

-- The descriptor over the three slices, which stands for native and displayed values.
unfoldable pub describe :
    Bytes → ℕ → BufferSlice → BufferSlice → BufferSlice → M Interner TypedColumnBatch
unfolding new_bitmap new_descriptor new_typed_column
describe column_id count values offsets validity_buffer = do
  validity ← lift (new_bitmap validity_buffer 0)
  descriptor ← lift (new_descriptor utf8 count (some validity) (variable_width offsets values))
  lift (new_typed_column column_id descriptor descriptor)

-- One round of the loop of `to_typed`.
unfoldable pub to_typed_column : StringColumnBatch → M Interner TypedColumnBatch
unfolding intern_batch_buffer offset_bytes len describe
to_typed_column c = do
  values ← intern_batch_buffer c.data_bytes
  offsets ← intern_batch_buffer (offset_bytes c.offsets)
  validity_buffer ← intern_batch_buffer c.validity
  count ← lift (ok_or (try_from u64_max (len c)) too_many_rows)
  describe c.column_id count values offsets validity_buffer

-- One round of the loop of `into_typed`, which counts the rows first.
unfoldable pub into_typed_column : StringColumnBatch → M Interner TypedColumnBatch
unfolding intern_batch_buffer offset_bytes describe
into_typed_column c = do
  count ← lift (ok_or (try_from u64_max (length c.offsets - 1)) too_many_rows)
  values ← intern_batch_buffer c.data_bytes
  offsets ← intern_batch_buffer (offset_bytes c.offsets)
  validity_buffer ← intern_batch_buffer c.validity
  describe c.column_id count values offsets validity_buffer

unfoldable pub to_typed_columns : List StringColumnBatch → M Interner (List TypedColumnBatch)
unfolding to_typed_column
to_typed_columns [] = pure []
to_typed_columns (c ∷ columns) = do
  typed ← to_typed_column c
  rest ← to_typed_columns columns
  pure (typed ∷ rest)

unfoldable pub into_typed_columns : List StringColumnBatch → M Interner (List TypedColumnBatch)
unfolding into_typed_column
into_typed_columns [] = pure []
into_typed_columns (c ∷ columns) = do
  typed ← into_typed_column c
  rest ← into_typed_columns columns
  pure (typed ∷ rest)

abbrev pub no_buffers : Interner
no_buffers = record { buffers = []; buffers_by_fingerprint = [] }

-- The batch of the columns that were converted.
unfoldable pub finish_typed :
    TableBatch → Outcome Interner (List TypedColumnBatch) → Result TypedTableBatch
unfolding new_typed_batch
finish_typed b (fail e s) = err e
finish_typed b (done columns s) =
    new_typed_batch b.table_id b.revision b.schema_version b.range b.complete s.buffers columns

-- `TableBatch::to_typed`
unfoldable pub to_typed : TableBatch → Result TypedTableBatch
unfolding to_typed_columns finish_typed
to_typed b = finish_typed b (to_typed_columns b.columns no_buffers)

-- `TableBatch::into_typed`
unfoldable pub into_typed : TableBatch → Result TypedTableBatch
unfolding into_typed_columns finish_typed
into_typed b = finish_typed b (into_typed_columns b.columns no_buffers)
