-- ===== src/Model/Range.antt =====
-- src/model.rs: safe integers, progressive extents and range requests.
pub mod Bounds
use Prim.Native.String.{◌++◌}
use tabulark.Base.{
  ℕ, ◌+◌, Bool, true, false, Option, none, some, String, ltb, if◌then◌else◌, u64_max, checked_add,
  checked_mul,
}
use tabulark.Text.{show}
use tabulark.Error.{
  Result, ok, err, new, with_detail, string, invalid_argument, invalid_range, ok_or, fail_if, ◌>>=◌,
  ◌>>◌,
}

-- `MAX_SAFE_INTEGER`
abbrev pub max_safe_integer : ℕ
max_safe_integer = 9_007_199_254_740_991

unfoldable pub validate_safe_integer : String → ℕ → Result (Unit {0})
validate_safe_integer label value = fail_if (ltb max_safe_integer value) (
    with_detail (new invalid_argument (label ++ " exceeds the JavaScript safe integer limit"))
      "value" (string (show value)))

unfoldable pub checked_end : String → ℕ → ℕ → Result ℕ
checked_end label start count = do
  end ←
      ok_or (checked_add u64_max start count) (new invalid_range (label ++ " range overflows u64"))
  fail_if (ltb max_safe_integer end)
      (new invalid_range (label ++ " range end exceeds the JavaScript safe integer limit"))
  ok end

pub data AxisExtent : Type 0 where
  exact at_least : ℕ → AxisExtent
  unknown : AxisExtent

-- `AxisExtent::exact` and `AxisExtent::at_least`
unfoldable pub new_exact : ℕ → Result AxisExtent
unfolding validate_safe_integer
new_exact value = do validate_safe_integer "extent" value; ok (exact value)

unfoldable pub new_at_least : ℕ → Result AxisExtent
unfolding validate_safe_integer
new_at_least value = do validate_safe_integer "extent" value; ok (at_least value)

unfoldable pub value : AxisExtent → Option ℕ
value (exact n) = some n
value (at_least n) = some n
value unknown = none

unfoldable pub is_exact : AxisExtent → Bool
is_exact (exact n) = true
is_exact _ = false

pub record TableExtent : Type 0 where
  pub rows : AxisExtent
  pub columns : AxisExtent

pub record RangeRequest : Type 0 where
  pub row_start : ℕ
  pub row_count : ℕ
  pub column_start : ℕ
  pub column_count : ℕ

unfoldable pub row_end : RangeRequest → Result ℕ
unfolding checked_end
row_end r = checked_end "row" r.row_start r.row_count

unfoldable pub column_end : RangeRequest → Result ℕ
unfolding checked_end
column_end r = checked_end "column" r.column_start r.column_count

unfoldable pub cell_count : RangeRequest → Result ℕ
cell_count r =
    ok_or (checked_mul u64_max r.row_count r.column_count)
      (new invalid_range "range cell count overflows u64")

unfoldable pub validate_public : RangeRequest → Result (Unit {0})
unfolding validate_safe_integer row_end column_end
validate_public r = do
  validate_safe_integer "row start" r.row_start
  validate_safe_integer "row count" r.row_count
  validate_safe_integer "column start" r.column_start
  validate_safe_integer "column count" r.column_count
  _ ← row_end r
  _ ← column_end r
  ok tt

-- `RangeRequest::new`
unfoldable pub new_range : ℕ → ℕ → ℕ → ℕ → Result RangeRequest
unfolding validate_public
new_range row_start row_count column_start column_count = do
  let request : RangeRequest = record {
    row_start = row_start;
    row_count = row_count;
    column_start = column_start;
    column_count = column_count;
  }
  validate_public request
  ok request
