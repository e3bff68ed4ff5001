-- ===== src/Excel/Missing.antt =====
-- crates/tabulark-excel-wasm/src/range.rs: `IndexedRanges::bytes` and `first_missing`, which look a
-- range up in what was read.
pub mod Gaps
pub mod Exact
pub mod Whole
use tabulark.Base.{
  ℕ, zero, suc, ◌+◌, ◌-◌, min, Bool, true, false, Option, none, some, ltb, leb, if◌then◌else◌,
  checked_add, checked_sub, try_from, usize_max, length,
}
use tabulark.Text.{Bytes}
use tabulark.Error.{
  Result, ok, err, TabularkError, new, invalid_argument, runtime_failure, fail_if, ◌>>=◌, ◌>>◌,
}
use tabulark.Model.Strings.{slice}
use tabulark.Excel.Segments.{last_at_most, first_at_least}
use tabulark.Excel.Host.{HostRange, end, new_host_range, segment_end}
use tabulark.Excel.Ranges.{IndexedRanges}

-- `bytes.get(relative..end)`
abbrev pub get_slice : ℕ → Option ℕ → Bytes → Option Bytes
get_slice relative none bytes = none
get_slice relative (some last) bytes =
    if leb last (length bytes) then some (slice relative last bytes) else none

-- The two lengths as `usize`.
abbrev pub slice_of : Option ℕ → Option ℕ → Bytes → Option Bytes
slice_of (some relative) (some count) bytes =
    get_slice relative (checked_add usize_max relative count) bytes
slice_of _ _ bytes = none

abbrev pub as_usize : Option ℕ → Option ℕ
as_usize none = none
as_usize (some n) = try_from usize_max n

abbrev pub bytes_in : Option (ℕ × Bytes) → HostRange → Option Bytes
bytes_in none range = none
bytes_in (some (start, bytes)) range =
    slice_of (as_usize (checked_sub range.offset start)) (try_from usize_max range.length) bytes

-- `IndexedRanges::bytes`
unfoldable pub indexed_bytes : IndexedRanges → HostRange → Option Bytes
unfolding last_at_most
indexed_bytes r range = bytes_in (last_at_most range.offset r.ranges) range

abbrev pub missing_end : Option (ℕ × Bytes) → ℕ → ℕ
missing_end none last = last
missing_end (some (next, bytes)) last = min next last

-- The gap that begins at `position`.
unfoldable pub gap_at : IndexedRanges → HostRange → ℕ → Result (Option HostRange)
unfolding first_at_least new_host_range
gap_at r range position =
    let last = missing_end (first_at_least position r.ranges) (end range) in
    if ltb position last
    then (new_host_range position (last - position) r.source_length >>= λ gap. ok (some gap))
    else err (new runtime_failure "Excel indexed range map contains an unreachable gap")

-- The end of the segment that holds `position`, if there is one.
unfoldable pub covered_end : Option (ℕ × Bytes) → ℕ → Result (Option ℕ)
unfolding segment_end
covered_end none position = ok none
covered_end (some (start, bytes)) position = do
  last ← segment_end start bytes
  if ltb position last then ok (some last) else ok none

-- Not reached: every round moves on, so there are no more rounds than places.
abbrev pub out_of_rounds : TabularkError
out_of_rounds = new runtime_failure "unreachable"

abbrev pub go_on :
    Option ℕ
    → (ℕ → Result (Option HostRange))
    → Result (Option HostRange)
    → Result (Option HostRange)
go_on none next gap = gap
go_on (some last) next gap = next last

-- The loop from `position` on.
unfoldable pub missing_from : ℕ → IndexedRanges → HostRange → ℕ → Result (Option HostRange)
unfolding gap_at covered_end last_at_most
missing_from zero r range position = err out_of_rounds
missing_from (suc rounds) r range position =
    let rest =
      (covered_end (last_at_most position r.ranges) position >>= λ covered.
      go_on covered (λ last. missing_from rounds r range (min last (end range)))
        (gap_at r range position)) in
    if ltb position (end range) then rest else ok none

-- `IndexedRanges::first_missing`
unfoldable pub first_missing : IndexedRanges → HostRange → Result (Option HostRange)
unfolding missing_from
first_missing r range = do
  fail_if (ltb r.source_length (end range))
      (new invalid_argument "Excel missing-range query lies outside the source")
  missing_from (suc (suc range.length)) r range range.offset
