-- ===== src/Tests/Package.antt =====
-- Examples for the end of a ZIP file (crates/tabulark-excel-wasm/src/range.rs).
use tabulark.Base.{length, ◌≡◌, refl, arith, [], ◌∷◌, ◌++◌, All}
use tabulark.Utf8.{is_valid, is_valid_from, advance, lead}
use tabulark.Text.{Bytes, codes}
use tabulark.Error.{ok, err, new, parse_failed, with_detail, utf8_string}
use tabulark.Excel.Host.{new_host_range}
use tabulark.Excel.Zip.{
  ZipEntryIndex, read_u16, read_u32, read_u64, central_location, zip64_record, parse_zip64_end,
  is_end_record, end_record, find_end, parse_end_of_central_directory, data_range, header_range,
}
use tabulark.Excel.Zip.Bounds.{IsLocation, parse_end_of_central_directory-IsLocation}
use tabulark.Excel.Zip.Extra.{validate_zip_path, entry_sizes}
use tabulark.Excel.Zip.Directory.{
  parse_central_directory, entries_from, parse_entry, entry_ends, finish_entry, check_entry,
}
use tabulark.Excel.Zip.Entries.{IsEntry, Distinct, parse_central_directory-IsDirectory}
use tabulark.Excel.Zip.Writer.{to_le_bytes, push_end, parse_end_of_central_directory-push_end}

-- A file of an entry of four bytes and its directory of ten.
abbrev packed : Bytes
packed = codes "datadirectory!"

parse_end_of_central_directory-push_end_example :
    parse_end_of_central_directory (push_end packed 1 10 4) 0 36
    ≡ ok (record { range = record { offset = 4; length = 10 }; entries = 1 })
parse_end_of_central_directory-push_end_example =
    parse_end_of_central_directory-push_end packed 1 10 4 0 36 (omega arith) (omega arith)
      (omega arith) (omega arith) (omega arith) (omega arith) (omega arith) (omega arith)

parse_end_of_central_directory-IsLocation_example :
    IsLocation 36 (record { range = record { offset = 4; length = 10 }; entries = 1 })
parse_end_of_central_directory-IsLocation_example =
    parse_end_of_central_directory-IsLocation (push_end packed 1 10 4) 0 36
      (record { range = record { offset = 4; length = 10 }; entries = 1 })
      parse_end_of_central_directory-push_end_example

-- With a comment the record is further from the end.
commented :
    parse_end_of_central_directory
      (packed
        ++ to_le_bytes 4 101010256
        ++ to_le_bytes 4 0
        ++ to_le_bytes 2 1
        ++ to_le_bytes 2 1
        ++ to_le_bytes 4 10
        ++ to_le_bytes 4 4
        ++ to_le_bytes 2 2
        ++ codes "hi")
      0
      38
    ≡ ok (record { range = record { offset = 4; length = 10 }; entries = 1 })
unfolding parse_end_of_central_directory find_end is_end_record end_record central_location read_u16
    read_u32 new_host_range
commented = refl

-- The record and the locator of ZIP64 in front of the end.
large :
    parse_end_of_central_directory
      (to_le_bytes 4 101075792
        ++ to_le_bytes 8 44
        ++ to_le_bytes 4 0
        ++ to_le_bytes 8 0
        ++ to_le_bytes 8 1
        ++ to_le_bytes 8 1
        ++ to_le_bytes 8 10
        ++ to_le_bytes 8 4
        ++ to_le_bytes 4 117853008
        ++ to_le_bytes 4 0
        ++ to_le_bytes 8 100
        ++ to_le_bytes 4 1
        ++ to_le_bytes 4 101010256
        ++ to_le_bytes 4 0
        ++ to_le_bytes 2 65535
        ++ to_le_bytes 2 65535
        ++ to_le_bytes 4 10
        ++ to_le_bytes 4 4
        ++ to_le_bytes 2 0)
      100
      198
    ≡ ok (record { range = record { offset = 4; length = 10 }; entries = 1 })
unfolding parse_end_of_central_directory find_end is_end_record end_record central_location
    parse_zip64_end zip64_record read_u16 read_u32 read_u64 new_host_range
large = refl

too_short :
    parse_end_of_central_directory packed 0 14 ≡ err (new parse_failed "XLSX tail is truncated")
unfolding parse_end_of_central_directory
too_short = refl

-- The data of an entry lies behind its header, its name and its extra field.
abbrev stored : ZipEntryIndex
stored = record {
  name = codes "a.xml";
  flags = 0;
  method = 8;
  crc32 = 0;
  compressed_size = 7;
  uncompressed_size = 9;
  local_header_offset = 100;
}

data_behind :
    data_range stored
      (to_le_bytes 4 67324752
        ++ to_le_bytes 4 20
        ++ to_le_bytes 2 8
        ++ to_le_bytes 8 0
        ++ to_le_bytes 8 0
        ++ to_le_bytes 2 5
        ++ to_le_bytes 2 4)
      1000
    ≡ ok (record { offset = 139; length = 7 })
unfolding data_range read_u16 read_u32 new_host_range
data_behind = refl

-- The entry as a central directory has it.
abbrev directory : Bytes
directory =
    to_le_bytes 4 33639248
    ++ to_le_bytes 4 20
    ++ to_le_bytes 2 0
    ++ to_le_bytes 2 8
    ++ to_le_bytes 8 0
    ++ to_le_bytes 4 7
    ++ to_le_bytes 4 9
    ++ to_le_bytes 2 5
    ++ to_le_bytes 2 0
    ++ to_le_bytes 2 0
    ++ to_le_bytes 8 0
    ++ to_le_bytes 4 100
    ++ codes "a.xml"

directory_read : parse_central_directory directory 1 1000 ≡ ok (stored ∷ [])
unfolding parse_central_directory entries_from parse_entry entry_ends finish_entry check_entry
    entry_sizes validate_zip_path is_valid is_valid_from advance lead header_range read_u16 read_u32
    new_host_range
directory_read = refl

parse_central_directory-IsDirectory_example :
    (length (stored ∷ []) ≡ 1) × All (IsEntry 1000) (stored ∷ []) × Distinct (stored ∷ [])
parse_central_directory-IsDirectory_example =
    parse_central_directory-IsDirectory directory 1 1000 (stored ∷ []) directory_read

unsafe_path :
    validate_zip_path (codes "a/../b")
    ≡ err (
        with_detail
          (new parse_failed "XLSX ZIP entry has an unsafe path")
          "entry"
          (utf8_string (codes "a/../b")))
unfolding validate_zip_path
unsafe_path = refl

dotted_path : validate_zip_path (codes "a/..b/c") ≡ ok tt
unfolding validate_zip_path
dotted_path = refl
