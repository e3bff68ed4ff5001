-- ===== src/Excel/Zip.antt =====
-- crates/tabulark-excel-wasm/src/range.rs: the end of a ZIP file, which says where its central
-- directory lies, and the local headers of its entries.
pub mod Ensures
pub mod Bounds
pub mod Extra
pub mod Directory
pub mod Entries
pub mod Rounds
pub mod Writer
use tabulark.Base.{
  ℕ, zero, suc, ◌+◌, ◌*◌, ◌-◌, ◌%◌, Bool, true, false, not, ◌||◌, [], ◌∷◌, Option, none, some, ltb,
  ◌==◌, if◌then◌else◌, length, try_from, checked_add, checked_sub, u32_max, u64_max, usize_max,
}
use tabulark.Text.{Bytes}
use tabulark.Error.{
  Result, ok, err, TabularkError, new, with_detail, number, utf8_string, parse_failed,
  resource_limit, unsupported_feature, ok_or, fail_if, ◌>>=◌, ◌>>◌,
}
use tabulark.Excel.Host.{HostRange, new_host_range}
use tabulark.Excel.Ranges.{is_at}
use tabulark.Excel.Missing.{get_slice}

abbrev pub max_zip_entries : ℕ
max_zip_entries = 16384

abbrev pub max_central_directory_bytes : ℕ
max_central_directory_bytes = 32 * 1024 * 1024

abbrev pub zip_truncated : TabularkError
zip_truncated = new parse_failed "XLSX ZIP structure is truncated"

abbrev pub zip_overflow : TabularkError
zip_overflow = new resource_limit "XLSX ZIP offset arithmetic overflows"

-- `from_le_bytes`
abbrev pub from_le_bytes : Bytes → ℕ
from_le_bytes [] = 0
from_le_bytes (b ∷ bytes) = b + 256 * from_le_bytes bytes

abbrev pub read_le : ℕ → Bytes → ℕ → Result ℕ
read_le width bytes offset = do
  word ← ok_or (get_slice offset (some (offset + width)) bytes) zip_truncated
  ok (from_le_bytes word)

unfoldable pub read_u16 : Bytes → ℕ → Result ℕ
read_u16 = read_le 2

unfoldable pub read_u32 : Bytes → ℕ → Result ℕ
read_u32 = read_le 4

unfoldable pub read_u64 : Bytes → ℕ → Result ℕ
read_u64 = read_le 8

pub record CentralDirectoryLocation : Type 0 where
  pub range : HostRange
  pub entries : ℕ

unfoldable pub central_location : ℕ → ℕ → ℕ → ℕ → Result CentralDirectoryLocation
unfolding new_host_range
central_location offset size entries source_length = do
  fail_if ((entries == 0) || ltb max_zip_entries entries) (
      with_detail
        (with_detail (new resource_limit "XLSX ZIP entry count exceeds the configured limit")
          "required" (number entries))
        "available" (number max_zip_entries))
  fail_if ((size == 0) || ltb max_central_directory_bytes size) (
      with_detail
        (with_detail (new resource_limit "XLSX central directory exceeds the configured limit")
          "requiredBytes" (number size))
        "availableBytes" (number max_central_directory_bytes))
  range ← new_host_range offset size source_length
  ok (record { range = range; entries = entries })

-- `read? != value`
abbrev pub differs : Result ℕ → ℕ → Result Bool
differs read value = read >>= λ found. ok (not (found == value))

-- `first? || second?`
abbrev pub either : Result Bool → Result Bool → Result Bool
either first second = first >>= λ holds. if holds then ok true else second

-- `first || second?`
abbrev pub or_read : Bool → Result Bool → Result Bool
or_read first second = if first then ok true else second

-- `value.and_then(|value| value.checked_add(count))`
abbrev pub then_add : ℕ → Option ℕ → ℕ → Option ℕ
then_add bound none count = none
then_add bound (some value) count = checked_add bound value count

-- `end.is_none_or(|end| end > length)`
abbrev pub is_beyond : Option ℕ → ℕ → Bool
is_beyond none size = true
is_beyond (some last) size = ltb size last

abbrev pub as_usize : Option ℕ → Option ℕ
as_usize none = none
as_usize (some value) = try_from usize_max value

-- The ZIP64 record at `relative` in the tail.
unfoldable pub zip64_record : Bytes → ℕ → ℕ → Result CentralDirectoryLocation
unfolding read_u32 read_u64 central_location
zip64_record tail relative source_length = do
  invalid ←
      or_read (is_beyond (checked_add usize_max relative 56) (length tail))
        (differs (read_u32 tail relative) 101075792)
  fail_if invalid (new parse_failed "XLSX ZIP64 record is invalid or truncated")
  record_size ← read_u64 tail (relative + 4)
  fail_if (ltb record_size 44) (new parse_failed "XLSX ZIP64 record is truncated")
  fail_if
      (is_beyond (as_usize (then_add u64_max (checked_add u64_max relative 12) record_size))
        (length tail))
      (new parse_failed "XLSX ZIP64 record extends outside the indexed tail")
  split ←
      either (differs (read_u32 tail (relative + 16)) 0) (differs (read_u32 tail (relative + 20)) 0)
  fail_if split (new unsupported_feature "multi-disk XLSX ZIP64 archives are unsupported")
  entries_on_disk ← read_u64 tail (relative + 24)
  all_entries ← read_u64 tail (relative + 32)
  fail_if (not (all_entries == entries_on_disk))
      (new unsupported_feature "split XLSX ZIP64 central directories are unsupported")
  entries ←
      ok_or (try_from usize_max all_entries)
        (new resource_limit "XLSX ZIP entry count exceeds usize")
  offset ← read_u64 tail (relative + 48)
  size ← read_u64 tail (relative + 40)
  central_location offset size entries source_length

unfoldable pub parse_zip64_end : Bytes → ℕ → ℕ → ℕ → Result CentralDirectoryLocation
unfolding read_u32 read_u64 zip64_record
parse_zip64_end tail tail_offset eocd_index source_length = do
  locator ← ok_or (checked_sub eocd_index 20) (new parse_failed "XLSX ZIP64 locator is missing")
  missing ← differs (read_u32 tail locator) 117853008
  fail_if missing (new parse_failed "XLSX ZIP64 locator is missing")
  split ←
      either (differs (read_u32 tail (locator + 4)) 0) (differs (read_u32 tail (locator + 16)) 1)
  fail_if split (new unsupported_feature "multi-disk XLSX ZIP64 archives are unsupported")
  record_offset ← read_u64 tail (locator + 8)
  distance ←
      ok_or (checked_sub record_offset tail_offset)
        (new parse_failed "XLSX ZIP64 record is outside the indexed tail")
  relative ←
      ok_or (try_from usize_max distance)
        (new resource_limit "XLSX ZIP64 record offset exceeds usize")
  zip64_record tail relative source_length

-- The record that begins at `index`, whose comment ends with the tail.
unfoldable pub end_record : Bytes → ℕ → ℕ → ℕ → Result CentralDirectoryLocation
unfolding read_u16 read_u32 parse_zip64_end central_location
end_record tail tail_offset index source_length = do
  split ← either (differs (read_u16 tail (index + 4)) 0) (differs (read_u16 tail (index + 6)) 0)
  fail_if split (new unsupported_feature "multi-disk XLSX ZIP archives are unsupported")
  entries ← read_u16 tail (index + 10)
  size ← read_u32 tail (index + 12)
  offset ← read_u32 tail (index + 16)
  if (entries == 65535) || ((size == u32_max) || (offset == u32_max))
      then parse_zip64_end tail tail_offset index source_length
      else central_location offset size entries source_length

-- Whether a record of the end begins at `index`: its signature is there, and its comment ends with
-- the tail.
unfoldable pub is_end_record : Bytes → ℕ → Result Bool
unfolding read_u16 read_u32
is_end_record tail index = do
  skipped ← differs (read_u32 tail index) 101010256
  comment_length ← if skipped then ok 0 else read_u16 tail (index + 20)
  if skipped
      then ok false
      else ok
          (is_at (then_add usize_max (checked_add usize_max index 22) comment_length) (length tail))

-- The loop over the indexes below `bound`, from the last one on.
unfoldable pub find_end : ℕ → Bytes → ℕ → ℕ → Result CentralDirectoryLocation
unfolding is_end_record end_record
find_end zero tail tail_offset source_length =
    err (new parse_failed "XLSX end-of-central-directory record was not found")
find_end (suc index) tail tail_offset source_length =
    let rest = find_end index tail tail_offset source_length in
    (is_end_record tail index >>= λ found.
    if found then end_record tail tail_offset index source_length else rest)

unfoldable pub parse_end_of_central_directory : Bytes → ℕ → ℕ → Result CentralDirectoryLocation
unfolding find_end
parse_end_of_central_directory tail tail_offset source_length = do
  fail_if (ltb (length tail) 22) (new parse_failed "XLSX tail is truncated")
  find_end (suc (length tail - 22)) tail tail_offset source_length

-- The name is the text as UTF-8.
pub record ZipEntryIndex : Type 0 where
  pub name : Bytes
  pub flags : ℕ
  pub method : ℕ
  pub crc32 : ℕ
  pub compressed_size : ℕ
  pub uncompressed_size : ℕ
  pub local_header_offset : ℕ

-- `RawZipEntry::header_range`
unfoldable pub header_range : ZipEntryIndex → ℕ → Result HostRange
unfolding new_host_range
header_range index = new_host_range index.local_header_offset 30

-- `RawZipEntry::data_range`
unfoldable pub data_range : ZipEntryIndex → Bytes → ℕ → Result HostRange
unfolding read_u16 read_u32 new_host_range
data_range index local_header source_length = do
  invalid ← or_read (not (length local_header == 30)) (differs (read_u32 local_header 0) 67324752)
  fail_if invalid (
      with_detail (new parse_failed "XLSX local file header is invalid") "entry"
        (utf8_string index.name))
  flags ← read_u16 local_header 6
  method ← read_u16 local_header 8
  fail_if (not (flags % 2 == 0) || not (method == index.method)) (
      with_detail (new parse_failed "XLSX local header does not match its central entry") "entry"
        (utf8_string index.name))
  name_length ← read_u16 local_header 26
  extra_length ← read_u16 local_header 28
  data_offset ←
      ok_or
        (then_add u64_max
          (then_add u64_max (checked_add u64_max index.local_header_offset 30) name_length)
          extra_length)
        zip_overflow
  new_host_range data_offset index.compressed_size source_length
