-- ===== src/Excel/Zip/Extra.antt =====
-- crates/tabulark-excel-wasm/src/range.rs: the paths of the entries of a ZIP file, and their ZIP64
-- fields.
use tabulark.Base.{
  ℕ, zero, suc, ◌+◌, Bool, true, false, not, ◌||◌, [], ◌∷◌, ◌++◌, Option, none, some, ltb, ◌==◌,
  if◌then◌else◌, length, checked_add, u32_max, usize_max,
}
use tabulark.Text.{Bytes, codes}
use tabulark.Error.{
  Result, ok, err, TabularkError, new, with_detail, utf8_string, parse_failed, ok_or, fail_if,
  ◌>>=◌, ◌>>◌,
}
use tabulark.Model.Pool.{bytes_eq}
use tabulark.Excel.Zip.{zip_overflow, read_u16, read_u64}

abbrev pub starts_with_slash : Bytes → Bool
starts_with_slash [] = false
starts_with_slash (b ∷ name) = b == b'/'

abbrev pub has_backslash : Bytes → Bool
has_backslash [] = false
has_backslash (b ∷ name) = (b == 92) || has_backslash name

-- Whether a part between slashes is "..", where `part` is what was read of the first one.
abbrev pub has_parent : Bytes → Bytes → Bool
has_parent part [] = bytes_eq part (codes "..")
has_parent part (b ∷ name) =
    let later = has_parent [] name in
    let same = has_parent (part ++ (b ∷ [])) name in
    if b == b'/' then bytes_eq part (codes "..") || later else same

unfoldable pub validate_zip_path : Bytes → Result (Unit {0})
validate_zip_path name =
    fail_if
      ((length name == 0) || (starts_with_slash name || (has_backslash name || has_parent [] name)))
      (with_detail (new parse_failed "XLSX ZIP entry has an unsafe path") "entry"
        (utf8_string name))

-- `if needed { next()? } else { 0 }`: the value, and the cursor afterwards.
abbrev pub next_if : Bool → Bytes → ℕ → ℕ → Result (ℕ × ℕ)
next_if false bytes cursor last = ok (0, cursor)
next_if true bytes cursor last = do
  value ← read_u64 bytes cursor
  next ← ok_or (checked_add usize_max cursor 8) zip_overflow
  fail_if (ltb last next) (new parse_failed "XLSX ZIP64 extra field is truncated")
  ok (value, next)

abbrev pub Sizes : Type 0
Sizes = ℕ × ℕ × ℕ

-- The values of the ZIP64 field from `cursor` to `last`.
unfoldable pub zip64_values : Bytes → Bool → Bool → Bool → ℕ → ℕ → Result Sizes
unfolding read_u64
zip64_values bytes need_compressed need_uncompressed need_offset cursor last = do
  uncompressed ← next_if need_uncompressed bytes cursor last
  compressed ← next_if need_compressed bytes uncompressed.1 last
  local_offset ← next_if need_offset bytes compressed.1 last
  ok (uncompressed.0, compressed.0, local_offset.0)

abbrev pub metadata_missing : TabularkError
metadata_missing = new parse_failed "XLSX ZIP64 entry metadata is missing"

abbrev pub fits_in : Option ℕ → ℕ → Bool
fits_in none size = false
fits_in (some last) size = not (ltb size last)

-- A field of the extra data is four bytes at least, so there are no more rounds than bytes.
unfoldable pub extra_from : ℕ → Bytes → Bool → Bool → Bool → ℕ → Result Sizes
unfolding read_u16 zip64_values
extra_from zero bytes need_compressed need_uncompressed need_offset offset = err metadata_missing
extra_from (suc rounds) bytes need_compressed need_uncompressed need_offset offset =
    let rest = extra_from rounds bytes need_compressed need_uncompressed need_offset in
    let field = do
      id ← read_u16 bytes offset
      size ← read_u16 bytes (offset + 2)
      last ← ok_or (checked_add usize_max (offset + 4) size) zip_overflow
      if ltb (length bytes) last
          then err metadata_missing
          else if id == 1
          then zip64_values bytes need_compressed need_uncompressed need_offset (offset + 4) last
          else rest last
    in if fits_in (checked_add usize_max offset 4) (length bytes)
      then field
      else err metadata_missing

unfoldable pub parse_zip64_extra : Bytes → Bool → Bool → Bool → Result Sizes
unfolding extra_from
parse_zip64_extra bytes need_compressed need_uncompressed need_offset =
    extra_from (suc (length bytes)) bytes need_compressed need_uncompressed need_offset 0

-- `if flag { new } else { old }`
abbrev pub replaced : Bool → ℕ → ℕ → ℕ
replaced flag new_value old_value = if flag then new_value else old_value

-- The sizes and the offset of an entry, from its ZIP64 field where they are too large for the entry.
unfoldable pub entry_sizes : Bytes → ℕ → ℕ → ℕ → Result Sizes
unfolding parse_zip64_extra
entry_sizes extra compressed uncompressed local_offset =
    let need_compressed = compressed == u32_max in
    let need_uncompressed = uncompressed == u32_max in
    let need_offset = local_offset == u32_max in
    if need_compressed || (need_uncompressed || need_offset)
    then (parse_zip64_extra extra need_compressed need_uncompressed need_offset >>= λ values. ok (
      replaced need_compressed values.1 compressed,
      replaced need_uncompressed values.0 uncompressed,
      replaced need_offset values.2 local_offset,
    ))
    else ok (compressed, uncompressed, local_offset)
