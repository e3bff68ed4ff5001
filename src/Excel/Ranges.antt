-- ===== src/Excel/Ranges.antt =====
-- crates/tabulark-excel-wasm/src/range.rs: `IndexedRanges`, the parts of a source that the
-- host has read, without overlaps.
pub mod Order
pub mod Insert
use tabulark.Base.{
  ℕ, zero, suc, ◌+◌, ◌-◌, min, Bool, true, false, not, ◌&&◌, List, [], ◌∷◌, ◌++◌, Option, none,
  some, ltb, leb, ◌==◌, if◌then◌else◌, try_from, checked_add, checked_sub, u64_max, usize_max, take,
  drop,
}
use tabulark.Base
use tabulark.Text.{Bytes}
use tabulark.Error.{
  Result, ok, err, new, with_detail, number, invalid_argument, resource_limit, runtime_failure,
  ok_or, fail_if,
}
use tabulark.State.{M, pure, get, modify, lift, throw_if, ◌>>=◌, ◌>>◌}
use tabulark.Maps.{lookup, remove}
use tabulark.Model.Pool.{bytes_eq}
use tabulark.Model.Strings.{slice}
use tabulark.Excel.Host.{HostRange, end, segment_end, check_previous, check_next}
use tabulark.Excel.Segments.{
  Segments, last_at_most, last_below, first_at_least, insert_segment, with_next,
}

pub record IndexedRanges : Type 0 where
  pub source_length : ℕ
  pub ranges : Segments
  pub retained_bytes : ℕ

-- `IndexedRanges::new`
unfoldable pub new_ranges : ℕ → IndexedRanges
new_ranges source_length = record { source_length = source_length; ranges = []; retained_bytes = 0 }

-- `previous_start.checked_add(previous_length) == Some(start)`
abbrev pub is_at : Option ℕ → ℕ → Bool
is_at none start = false
is_at (some last) start = last == start

-- `self.ranges.remove(&start)`
unfoldable pub take_out : ℕ → M IndexedRanges (Unit {0})
take_out start = modify λ r. record r { ranges = remove start r.ranges }

-- A segment that ends where the new one begins is taken out and put in front.
unfoldable pub absorb_previous : Option (ℕ × Bytes) → ℕ → Bytes → M IndexedRanges (ℕ × Bytes)
unfolding take_out
absorb_previous none start merged = pure (start, merged)
absorb_previous (some (previous_start, previous)) start merged = do
  count ← lift (
      ok_or (try_from u64_max (Base.length previous))
        (new resource_limit "indexed range exceeds u64"))
  if is_at (checked_add u64_max previous_start count) start
      then take_out previous_start >> pure (previous_start, previous ++ merged)
      else pure (start, merged)

-- A segment that begins where the new one ends is taken out and put behind.
unfoldable pub absorb_next : ℕ → Bytes → ℕ → IndexedRanges → IndexedRanges
unfolding insert_segment
absorb_next start merged merged_end r = record r {
  ranges =
      insert_segment start (with_next (lookup merged_end r.ranges) merged)
        (remove merged_end r.ranges);
}

-- The rest of `insert`, for a range that is not there.
unfoldable pub add_range : HostRange → Bytes → ℕ → M IndexedRanges (Unit {0})
unfolding check_next first_at_least last_below absorb_previous segment_end absorb_next
add_range requested bytes actual = do
  r ← get
  lift (check_next (first_at_least requested.offset r.ranges) requested)
  retained ← lift (
      ok_or (checked_add u64_max r.retained_bytes actual)
        (new resource_limit "Excel indexed range accounting overflows"))
  modify λ s. record s { retained_bytes = retained }
  merged ← absorb_previous (last_below requested.offset r.ranges) requested.offset bytes
  merged_end ← lift (segment_end merged.0 merged.1)
  modify (absorb_next merged.0 merged.1 merged_end)

unfoldable pub insert : HostRange → Bytes → M IndexedRanges (Unit {0})
unfolding check_previous last_at_most add_range
insert requested bytes = do
  r ← get
  throw_if (ltb r.source_length (end requested))
      (new invalid_argument "Excel range result lies outside the source")
  actual ← lift (
      ok_or (try_from u64_max (Base.length bytes))
        (new resource_limit "Excel range result length exceeds u64"))
  throw_if (not (actual == requested.length)) (
      with_detail
        (with_detail (new invalid_argument "Excel range result length does not match its action")
          "expectedLength" (number requested.length))
        "actualLength" (number actual))
  present ← lift (check_previous (last_at_most requested.offset r.ranges) requested bytes)
  if present then pure tt else add_range requested bytes actual
