-- ===== src/Excel/Host.antt =====
-- crates/tabulark-excel-wasm/src/range.rs: `HostRange`, a range to be read by the host, and the
-- checks of what it gives back against what was read before.
use tabulark.Base.{
  ℕ, ◌+◌, ◌-◌, Bool, true, false, ◌&&◌, Option, none, some, ltb, ◌==◌, if◌then◌else◌, try_from,
  checked_add, u64_max,
}
use tabulark.Base
use tabulark.Text.{Bytes}
use tabulark.Error.{
  Result, ok, err, new, with_detail, number, invalid_argument, resource_limit, ok_or, fail_if,
  ◌>>=◌, ◌>>◌,
}
use tabulark.Model.Pool.{bytes_eq}

pub record HostRange : Type 0 where
  pub offset : ℕ
  pub length : ℕ

abbrev pub end : HostRange → ℕ
end r = r.offset + r.length

-- `HostRange::new`
unfoldable pub new_host_range : ℕ → ℕ → ℕ → Result HostRange
new_host_range offset length source_length = do
  fail_if (length == 0) (new invalid_argument "Excel source range length must be positive")
  last ←
      ok_or (checked_add u64_max offset length)
        (new invalid_argument "Excel source range end overflows u64")
  fail_if (ltb source_length last) (
      with_detail
        (with_detail
          (with_detail (new invalid_argument "Excel source range lies outside the source") "offset"
            (number offset))
          "length" (number length))
        "sourceLength" (number source_length))
  ok (record { offset = offset; length = length })

-- `start.checked_add(u64::try_from(bytes.len())?)`
unfoldable pub segment_end : ℕ → Bytes → Result ℕ
segment_end start bytes = do
  count ←
      ok_or (try_from u64_max (Base.length bytes)) (new resource_limit "indexed range exceeds u64")
  ok_or (checked_add u64_max start count) (new resource_limit "indexed range end overflows")

-- The check against the last segment that begins at the range or before it. The answer is whether
-- the range is there already.
unfoldable pub check_previous : Option (ℕ × Bytes) → HostRange → Bytes → Result Bool
unfolding segment_end
check_previous none requested bytes = ok false
check_previous (some (start, existing)) requested bytes = do
  existing_end ← segment_end start existing
  if ltb requested.offset existing_end
      then if (start == requested.offset) && bytes_eq existing bytes
        then ok true
        else err (new invalid_argument "Excel range result overlaps an indexed range")
      else ok false

-- The check against the first segment that begins at the range or behind it.
unfoldable pub check_next : Option (ℕ × Bytes) → HostRange → Result (Unit {0})
check_next none requested = ok tt
check_next (some (next, bytes)) requested =
    fail_if (ltb next (end requested))
      (new invalid_argument "Excel range result overlaps an indexed range")
