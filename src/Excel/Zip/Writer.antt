-- ===== src/Excel/Zip/Writer.antt =====
-- crates/tabulark-excel-wasm/src/range.rs: the end of a ZIP file as `build_raw_zip` writes it, which
-- `parse_end_of_central_directory` finds.
use mathlib.Core.List.{append_assoc}
use tabulark.Base.{
  ℕ, zero, suc, ◌+◌, ◌/◌, ◌%◌, ◌^◌, ◌-◌, ◌≤◌, ◌<◌, ◌≡◌, arith, [], ◌∷◌, ◌++◌, ap, ◌∙◌, length,
  length-append, drop-append_length, take, drop, le→leb, true, false, ltb, u32_max, u64_max,
  usize_max,
}
use tabulark.Text.{Bytes}
use tabulark.Error.{Result, ok}
use tabulark.Excel.Zip.{
  from_le_bytes, read_le, read_u16, read_u32, CentralDirectoryLocation, central_location,
  end_record, is_end_record, find_end, parse_end_of_central_directory, max_zip_entries,
  max_central_directory_bytes,
}
use tabulark.Excel.Host.{new_host_range}

-- `to_le_bytes`
abbrev pub to_le_bytes : ℕ → ℕ → Bytes
to_le_bytes zero value = []
to_le_bytes (suc width) value = (value % 256) ∷ to_le_bytes width (value / 256)

abbrev pub push_u16 : Bytes → ℕ → Bytes
push_u16 target value = target ++ to_le_bytes 2 value

abbrev pub push_u32 : Bytes → ℕ → Bytes
push_u32 target value = target ++ to_le_bytes 4 value

-- The record behind the central directory.
unfoldable pub push_end : Bytes → ℕ → ℕ → ℕ → Bytes
push_end output count central_size central_offset =
    let signed = push_u16 (push_u16 (push_u32 output 101010256) 0) 0 in
    let counted = push_u16 (push_u16 signed count) count in
    push_u16 (push_u32 (push_u32 counted central_size) central_offset) 0

-- Behind a prefix, the bytes that follow it are read.
read_le-append :
    (w i : ℕ) (p q : Bytes)
    → i + w ≤ length q
    → read_le w (p ++ q) (length p + i) ≡ ok (from_le_bytes (take w (drop i q)))
read_le-append w i p q h =
    rw
      (
        le→leb (length p + i + w) (length (p ++ q)) (omega (arith, h, length-append p q)),
        drop-append_length p q i,
      )
      (ap (λ n. ok (from_le_bytes (take n (drop i q)))) {x = length p + i + w - (length p + i)}
        {y = w} (omega arith))

word2 : (v : ℕ) → v < 2 ^ 16 → from_le_bytes (to_le_bytes 2 v) ≡ v
word2 v h = omega arith

word4 : (v : ℕ) → v < 2 ^ 32 → from_le_bytes (to_le_bytes 4 v) ≡ v
word4 v h = omega arith

-- The bytes of the record.
abbrev record_bytes : ℕ → ℕ → ℕ → Bytes
record_bytes count size offset =
    to_le_bytes 4 101010256
    ++ to_le_bytes 2 0
    ++ to_le_bytes 2 0
    ++ to_le_bytes 2 count
    ++ to_le_bytes 2 count
    ++ to_le_bytes 4 size
    ++ to_le_bytes 4 offset
    ++ to_le_bytes 2 0

push_end-record :
    (output : Bytes) (count size offset : ℕ)
    → push_end output count size offset ≡ output ++ record_bytes count size offset
unfolding push_end
push_end-record output count size offset = simp (append_assoc)

module _ (output : Bytes) (count size offset source_length : ℕ) (c : count < 65535)
    (s : size < u32_max) (o : offset < u32_max) (u : length output + 22 ≤ usize_max) where
  tail : Bytes
  tail = output ++ record_bytes count size offset

  reads_u16 :
      (i : ℕ)
      → i + 2 ≤ 22
      → read_u16 tail (length output + i)
        ≡ ok (from_le_bytes (take 2 (drop i (record_bytes count size offset))))
  unfolding read_u16 tail
  reads_u16 i h = read_le-append 2 i output (record_bytes count size offset) h

  reads_u32 :
      (i : ℕ)
      → i + 4 ≤ 22
      → read_u32 tail (length output + i)
        ≡ ok (from_le_bytes (take 4 (drop i (record_bytes count size offset))))
  unfolding read_u32 tail
  reads_u32 i h = read_le-append 4 i output (record_bytes count size offset) h

  signature : read_u32 tail (length output) ≡ ok 101010256
  signature =
      ap (read_u32 tail) {x = length output} {y = length output + 0} (omega arith)
      ∙ reads_u32 0 (omega arith)

  size_read : read_u32 tail (length output + 12) ≡ ok size
  size_read = reads_u32 12 (omega arith) ∙ ap ok (word4 size (omega arith))

  offset_read : read_u32 tail (length output + 16) ≡ ok offset
  offset_read = reads_u32 16 (omega arith) ∙ ap ok (word4 offset (omega arith))

  count_read : read_u16 tail (length output + 10) ≡ ok count
  count_read = reads_u16 10 (omega arith) ∙ ap ok (word2 count (omega arith))

  length-tail : length tail ≡ length output + 22
  unfolding tail
  length-tail = length-append output (record_bytes count size offset)

  tail-is_end : is_end_record tail (length output) ≡ ok true
  unfolding is_end_record
  tail-is_end = rw (signature, reads_u16 20 (omega arith), length-tail) ground arith

  tail-record :
      (tail_offset : ℕ)
      → end_record tail tail_offset (length output) source_length
        ≡ central_location offset size count source_length
  unfolding end_record
  tail-record tail_offset =
      rw (reads_u16 4 (omega arith), reads_u16 6 (omega arith), count_read, size_read, offset_read)
        ground arith

  found : ℕ → Result CentralDirectoryLocation
  found tail_offset = parse_end_of_central_directory tail tail_offset source_length

  found-location :
      (tail_offset : ℕ) → found tail_offset ≡ central_location offset size count source_length
  unfolding found parse_end_of_central_directory find_end
  found-location tail_offset = rw (long, place, tail-is_end) (tail-record tail_offset)
    where
      long : ltb (length tail) 22 ≡ false
      long = ground (arith, length-tail)

      place : length tail - 22 ≡ length output
      place = omega (arith, length-tail)

located :
    (offset size count source_length : ℕ)
    → 0 < count
    → count ≤ max_zip_entries
    → 0 < size
    → size ≤ max_central_directory_bytes
    → offset + size ≤ source_length
    → source_length ≤ u64_max
    → central_location offset size count source_length
      ≡ ok (record { range = record { offset = offset; length = size }; entries = count })
unfolding central_location new_host_range
located offset size count source_length a b c d e f = ground arith

-- The end of a ZIP file as it is written, whatever bytes stand before it, is found again: the answer
-- is the place of the central directory and the number of its entries that were written, where these
-- are within the limits, the place lies in the source, and the file is addressable by a `usize`.
pub parse_end_of_central_directory-push_end :
    (output : Bytes) (count size offset tail_offset source_length : ℕ)
    → 0 < count
    → count ≤ max_zip_entries
    → 0 < size
    → size ≤ max_central_directory_bytes
    → offset < u32_max
    → offset + size ≤ source_length
    → source_length ≤ u64_max
    → length output + 22 ≤ usize_max
    → parse_end_of_central_directory (push_end output count size offset) tail_offset source_length
      ≡ ok (record { range = record { offset = offset; length = size }; entries = count })
unfolding found tail
parse_end_of_central_directory-push_end output count size offset tail_offset source_length a b c d o
      e f u =
    ap (λ bytes. parse_end_of_central_directory bytes tail_offset source_length)
      (push_end-record output count size offset)
    ∙ found-location output count size offset source_length (omega arith) (omega arith) o u
        tail_offset
    ∙ located offset size count source_length a b c d e f
