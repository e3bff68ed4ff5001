-- ===== src/Model/Slices.antt =====
-- src/model.rs: the entries of a buffer pool, and views into them.
use tabulark.Base.{ℕ}
use tabulark.Text.{Bytes}
use tabulark.Error.{Result, ok, ◌>>=◌, ◌>>◌}
use tabulark.Model.Range.{validate_safe_integer, checked_end}

pub record BatchBuffer : Type 0 where
  pub bytes : Bytes

pub record BufferSlice : Type 0 where
  pub buffer_index : ℕ
  pub byte_offset : ℕ
  pub byte_length : ℕ

-- `BufferSlice::new`
unfoldable pub new_slice : ℕ → ℕ → ℕ → Result BufferSlice
unfolding validate_safe_integer checked_end
new_slice buffer_index byte_offset byte_length = do
  validate_safe_integer "buffer byte offset" byte_offset
  validate_safe_integer "buffer byte length" byte_length
  _ ← checked_end "buffer byte" byte_offset byte_length
  ok (record { buffer_index = buffer_index; byte_offset = byte_offset; byte_length = byte_length })

unfoldable pub byte_end : BufferSlice → Result ℕ
unfolding checked_end
byte_end s = checked_end "buffer byte" s.byte_offset s.byte_length

pub record BitmapSlice : Type 0 where
  pub buffer : BufferSlice
  pub bit_offset : ℕ

-- `BitmapSlice::new`
unfoldable pub new_bitmap : BufferSlice → ℕ → Result BitmapSlice
unfolding validate_safe_integer
new_bitmap buffer bit_offset = do
  validate_safe_integer "bitmap bit offset" bit_offset
  ok (record { buffer = buffer; bit_offset = bit_offset })
