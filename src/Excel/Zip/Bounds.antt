-- ===== src/Excel/Zip/Bounds.antt =====
-- Where the central directory of a ZIP file may lie (range.rs).
use tabulark.Base.{ℕ, zero, suc, ◌≤◌, ◌<◌, ◌≡◌, arith, false, subst, ◌||◌, ltb, ◌==◌}
use tabulark.Text.{Bytes}
use tabulark.Error.{ok}
use tabulark.Excel.Zip.Ensures.{
  Ensures, Ensures-step, Ensures-then, Ensures-guard, Ensures-err, Ensures-ok, Ensures-if,
}
use tabulark.Excel.Host.{HostRange, end, new_host_range}
use tabulark.Excel.Zip.{
  CentralDirectoryLocation, central_location, zip64_record, parse_zip64_end, end_record, find_end,
  parse_end_of_central_directory, max_zip_entries, max_central_directory_bytes,
}

-- A place for a central directory, in the source and within the limits.
pub record IsLocation (source_length : ℕ) (l : CentralDirectoryLocation) : Type 0 where
  pub entries : (0 < l.entries) × (l.entries ≤ max_zip_entries)
  pub size : (0 < l.range.length) × (l.range.length ≤ max_central_directory_bytes)
  pub within : end l.range ≤ source_length

new_host_range-within :
    (offset size source_length : ℕ)
    → Ensures
        (λ r. (r.length ≡ size) × (end r ≤ source_length))
        (new_host_range offset size source_length)
unfolding new_host_range Ensures
new_host_range-within offset size source_length = ground arith

located :
    (size entries source_length : ℕ) (range : HostRange)
    → ((entries == 0) || ltb max_zip_entries entries) ≡ false
    → ((size == 0) || ltb max_central_directory_bytes size) ≡ false
    → (range.length ≡ size) × (end range ≤ source_length)
    → IsLocation source_length (record { range = range; entries = entries })
located size entries source_length range e f h = record {
  entries = (ground arith, ground arith);
  size = (ground (arith, h), ground (arith, h));
  within = h.1;
}

central_location-IsLocation :
    (offset size entries source_length : ℕ)
    → Ensures (IsLocation source_length) (central_location offset size entries source_length)
unfolding central_location Ensures
central_location-IsLocation offset size entries source_length =
    Ensures-step (λ _. ((entries == 0) || ltb max_zip_entries entries) ≡ false)
      (IsLocation source_length) _ _
      (Ensures-guard ((entries == 0) || ltb max_zip_entries entries) _)
      λ _ e.
        Ensures-step (λ _. ((size == 0) || ltb max_central_directory_bytes size) ≡ false)
          (IsLocation source_length) _ _
          (Ensures-guard ((size == 0) || ltb max_central_directory_bytes size) _)
          λ _ f.
            Ensures-step _ (IsLocation source_length) _ _
              (new_host_range-within offset size source_length)
              λ r h. located size entries source_length r e f h

zip64_record-IsLocation :
    (tail : Bytes) (relative source_length : ℕ)
    → Ensures (IsLocation source_length) (zip64_record tail relative source_length)
unfolding zip64_record
zip64_record-IsLocation tail relative source_length =
    search (Ensures-then, central_location-IsLocation) depth 20

parse_zip64_end-IsLocation :
    (tail : Bytes) (tail_offset index source_length : ℕ)
    → Ensures (IsLocation source_length) (parse_zip64_end tail tail_offset index source_length)
unfolding parse_zip64_end
parse_zip64_end-IsLocation tail tail_offset index source_length =
    search (Ensures-then, zip64_record-IsLocation) depth 20

end_record-IsLocation :
    (tail : Bytes) (tail_offset index source_length : ℕ)
    → Ensures (IsLocation source_length) (end_record tail tail_offset index source_length)
unfolding end_record
end_record-IsLocation tail tail_offset index source_length =
    search (Ensures-then, Ensures-if, parse_zip64_end-IsLocation, central_location-IsLocation) depth
      20

find_end-IsLocation :
    (bound : ℕ) (tail : Bytes) (tail_offset source_length : ℕ)
    → Ensures (IsLocation source_length) (find_end bound tail tail_offset source_length)
unfolding find_end
find_end-IsLocation zero tail tail_offset source_length = Ensures-err (IsLocation source_length) _
find_end-IsLocation (suc index) tail tail_offset source_length =
    let rest = find_end-IsLocation index tail tail_offset source_length in
    search (Ensures-then, Ensures-if, end_record-IsLocation, rest) depth 20

parsed :
    (tail : Bytes) (tail_offset source_length : ℕ)
    → Ensures
        (IsLocation source_length)
        (parse_end_of_central_directory tail tail_offset source_length)
unfolding parse_end_of_central_directory
parsed tail tail_offset source_length = search (Ensures-then, find_end-IsLocation) depth 20

-- A central directory that is found at the end of a file, with the record of ZIP64 or without, lies
-- in the source, has bytes and entries, and keeps to the limits on both, whatever the bytes say.
pub parse_end_of_central_directory-IsLocation :
    (tail : Bytes) (tail_offset source_length : ℕ) (l : CentralDirectoryLocation)
    → parse_end_of_central_directory tail tail_offset source_length ≡ ok l
    → IsLocation source_length l
parse_end_of_central_directory-IsLocation tail tail_offset source_length l e =
    Ensures-ok (IsLocation source_length) l
      (subst (Ensures (IsLocation source_length)) e (parsed tail tail_offset source_length))
