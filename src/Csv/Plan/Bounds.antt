-- ===== src/Csv/Plan/Bounds.antt =====
-- Which ranges are planned (csv.rs).
use tabulark.Base.{◌+◌, ◌*◌, ◌≤◌, ◌≡◌, arith, length}
use tabulark.Error.{ok}
use tabulark.Model.Range.{
  RangeRequest, max_safe_integer, validate_public, cell_count, column_end, checked_end,
}
use tabulark.Csv.Core.{CsvCore}
use tabulark.Csv.Options.{RangePlan}
use tabulark.Csv.Scanner.{CsvScanner}
use tabulark.Csv.Plan.{validate_range, plan_range}

module _ (core : CsvCore) where
  -- A planned request ends at a row that a double represents exactly and at a column of the schema,
  -- and has at most as many cells as configured.
  pub plan_range-bounds :
      (request : RangeRequest) (s : CsvScanner core) (plan : RangePlan)
      → plan_range core request s ≡ ok plan
      → (request.row_start + request.row_count ≤ max_safe_integer)
        × (request.column_start + request.column_count ≤ length s.columns)
        × (request.row_count * request.column_count ≤ s.options.limits.max_cells_per_range)
  unfolding plan_range validate_range validate_public cell_count column_end checked_end
  plan_range-bounds request s plan e = ground (arith, e)
