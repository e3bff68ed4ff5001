-- ===== src/Excel/Zip/Directory.antt =====
-- crates/tabulark-excel-wasm/src/range.rs: the entries of the central directory of a ZIP file.
use tabulark.Base.{
  ℕ, zero, suc, ◌+◌, ◌*◌, ◌-◌, ◌%◌, Bool, false, not, ◌&&◌, ◌||◌, List, [], ◌∷◌, Option, none, some,
  ltb, ◌==◌, if◌then◌else◌, length, checked_add, usize_max,
}
use tabulark.Text.{Bytes}
use tabulark.Utf8.{is_valid}
use tabulark.Error.{
  Result, ok, err, TabularkError, new, with_detail, number, utf8_string, parse_failed,
  resource_limit, unsupported_feature, runtime_failure, ok_or, fail_if, ◌>>=◌, ◌>>◌,
}
use tabulark.Model.Pool.{bytes_eq}
use tabulark.Model.Strings.{slice}
use tabulark.Excel.Zip.{
  ZipEntryIndex, zip_overflow, read_u16, read_u32, differs, or_read, header_range,
}
use tabulark.Excel.Zip.Extra.{validate_zip_path, entry_sizes}

abbrev pub max_compressed_entry_bytes : ℕ
max_compressed_entry_bytes = 64 * 1024 * 1024

abbrev pub max_expanded_entry_bytes : ℕ
max_expanded_entry_bytes = 128 * 1024 * 1024

abbrev pub with_entry : Bytes → TabularkError → TabularkError
with_entry name failure = with_detail failure "entry" (utf8_string name)

-- What an entry must be to be accepted.
unfoldable pub check_entry : ZipEntryIndex → ℕ → Result (Unit {0})
unfolding header_range
check_entry entry source_length = do
  fail_if
      (ltb max_compressed_entry_bytes entry.compressed_size
        || ltb max_expanded_entry_bytes entry.uncompressed_size)
      (with_detail
        (with_detail
          (with_entry entry.name (new resource_limit "XLSX ZIP entry exceeds the configured bound"))
          "compressedBytes" (number entry.compressed_size))
        "expandedBytes" (number entry.uncompressed_size))
  header ← header_range entry source_length
  ok tt

-- Where the parts of an entry end: its fixed part, the name, the extra data and the comment.
unfoldable pub entry_ends : ℕ → ℕ → ℕ → ℕ → Result (ℕ × ℕ × ℕ × ℕ)
entry_ends offset name_length extra_length comment_length = do
  name_start ← ok_or (checked_add usize_max offset 46) zip_overflow
  name_end ← ok_or (checked_add usize_max name_start name_length) zip_overflow
  extra_end ← ok_or (checked_add usize_max name_end extra_length) zip_overflow
  last ← ok_or (checked_add usize_max extra_end comment_length) zip_overflow
  ok (name_start, name_end, extra_end, last)

-- The rest of an entry, whose sizes and offset are the numbers of its fixed part.
unfoldable pub finish_entry : Bytes → ℕ → ZipEntryIndex → ℕ × ℕ × ℕ × ℕ → Result (ZipEntryIndex × ℕ)
unfolding validate_zip_path entry_sizes check_entry
finish_entry bytes source_length fixed ends = do
  fail_if (ltb (length bytes) ends.3) (new parse_failed "XLSX central directory entry is truncated")
  let name = slice ends.0 ends.1 bytes
  fail_if (not (is_valid name)) (new unsupported_feature "XLSX ZIP entry names must be UTF-8")
  validate_zip_path name
  fail_if (not (fixed.flags % 2 == 0))
      (with_entry name (new unsupported_feature "encrypted XLSX ZIP entries are unsupported"))
  fail_if (not (fixed.method == 0) && not (fixed.method == 8)) (
      with_detail
        (with_entry name (new unsupported_feature "XLSX ZIP compression method is unsupported"))
        "method" (number fixed.method))
  sizes ←
      entry_sizes (slice ends.1 ends.2 bytes) fixed.compressed_size fixed.uncompressed_size
        fixed.local_header_offset
  let entry : ZipEntryIndex = record fixed {
    name = name;
    compressed_size = sizes.0;
    uncompressed_size = sizes.1;
    local_header_offset = sizes.2;
  }
  check_entry entry source_length
  ok (entry, ends.3)

-- The entry that begins at `offset`, and where it ends.
unfoldable pub parse_entry : Bytes → ℕ → ℕ → Result (ZipEntryIndex × ℕ)
unfolding read_u16 read_u32 entry_ends finish_entry
parse_entry bytes source_length offset = do
  invalid ← or_read (ltb (length bytes - offset) 46) (differs (read_u32 bytes offset) 33639248)
  fail_if invalid (new parse_failed "XLSX central directory contains an invalid entry")
  flags ← read_u16 bytes (offset + 8)
  method ← read_u16 bytes (offset + 10)
  crc32 ← read_u32 bytes (offset + 16)
  compressed ← read_u32 bytes (offset + 20)
  uncompressed ← read_u32 bytes (offset + 24)
  name_length ← read_u16 bytes (offset + 28)
  extra_length ← read_u16 bytes (offset + 30)
  comment_length ← read_u16 bytes (offset + 32)
  local_offset ← read_u32 bytes (offset + 42)
  ends ← entry_ends offset name_length extra_length comment_length
  finish_entry bytes source_length
      (record {
        name = [];
        flags = flags;
        method = method;
        crc32 = crc32;
        compressed_size = compressed;
        uncompressed_size = uncompressed;
        local_header_offset = local_offset;
      })
      ends

-- The `HashMap` of the entries, as the list of them.
abbrev pub has_name : Bytes → List ZipEntryIndex → Bool
has_name name [] = false
has_name name (entry ∷ entries) = bytes_eq entry.name name || has_name name entries

-- An entry is 46 bytes at least, so there are no more rounds than bytes.
unfoldable pub entries_from : ℕ → Bytes → ℕ → ℕ → List ZipEntryIndex → Result (List ZipEntryIndex)
unfolding parse_entry
entries_from zero bytes source_length offset entries = err (new runtime_failure "unreachable")
entries_from (suc rounds) bytes source_length offset entries =
    let rest = entries_from rounds bytes source_length in
    let next = do
      parsed ← parse_entry bytes source_length offset
      if has_name parsed.0.name entries
          then err
              (with_entry parsed.0.name (new parse_failed "XLSX ZIP contains a duplicate entry"))
          else rest parsed.1 (parsed.0 ∷ entries)
    in if ltb offset (length bytes) then next else ok entries

unfoldable pub parse_central_directory : Bytes → ℕ → ℕ → Result (List ZipEntryIndex)
unfolding entries_from
parse_central_directory bytes expected_entries source_length = do
  entries ← entries_from (suc (length bytes)) bytes source_length 0 []
  fail_if (not (length entries == expected_entries)) (
      with_detail
        (with_detail (new parse_failed "XLSX central directory count does not match its end record")
          "expectedEntries" (number expected_entries))
        "actualEntries" (number (length entries)))
  ok entries

-- `ZipDirectoryIndex::entry`
unfoldable pub entry_named : List ZipEntryIndex → Bytes → Option ZipEntryIndex
entry_named [] name = none
entry_named (entry ∷ entries) name =
    let later = entry_named entries name in if bytes_eq entry.name name then some entry else later
