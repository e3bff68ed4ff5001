-- ===== src/Tests/Scanning.antt =====
-- Examples for the scanner (csv.rs).
use tabulark.Csv.Plan.Bounds.{plan_range-bounds}
use tabulark.Base.{ℕ, ◌+◌, ◌<◌, ◌≡◌, refl, arith, true, [], ◌∷◌, map, length, ◌*◌, ◌≤◌}
use tabulark.Error.{ok}
use tabulark.State.{state_of}
use tabulark.Model.Range.{
  RangeRequest, validate_public, cell_count, column_end, checked_end, max_safe_integer,
}
use tabulark.Csv.Options.{RangePlan}
use tabulark.Csv.Process.{rounds}
use tabulark.Csv.Scan.{feed_chunk}
use tabulark.Csv.Scanner.Index.{IsIndexed}
use tabulark.Csv.Scanner.Limits.{IsLimited}
use tabulark.Csv.Scan.Index.{feed_chunk-IsIndexed}
use tabulark.Csv.Scan.Limits.{feed_chunk-IsLimited}
use tabulark.Csv.Process.Rounds.{rounds-enough}
use tabulark.Csv.Plan.{plan_range, validate_range, nearest, partition_point}
use tabulark.Csv.Plan.Nearest.{IsAmong, plan_range-nearest}
use tabulark.Tests.{plain, plain-IsDocumented, fresh, table, scanned, scanning}

scanned_rows : scanned.rows ≡ 5
unfolding scanning
scanned_rows = refl

scanned_checkpoints :
    map {B = ℕ × ℕ} (λ c. (c.row, c.byte_offset)) scanned.checkpoints
    ≡ (0, 4) ∷ (2, 12) ∷ (4, 20) ∷ []
unfolding scanning
scanned_checkpoints = refl

feed_chunk-IsIndexed_example : IsIndexed plain (state_of (feed_chunk plain 0 table true fresh))
feed_chunk-IsIndexed_example = feed_chunk-IsIndexed plain 0 table true fresh (omega arith, refl)

fresh-IsLimited : IsLimited plain fresh
fresh-IsLimited = ground arith

feed_chunk-IsLimited_example : IsLimited plain (state_of (feed_chunk plain 0 table true fresh))
feed_chunk-IsLimited_example = feed_chunk-IsLimited plain 0 table true fresh fresh-IsLimited

rounds-enough_example : rounds plain 100 table fresh ≡ rounds plain (length table) table fresh
rounds-enough_example = rounds-enough plain plain-IsDocumented 100 table fresh (omega arith)

abbrev request : RangeRequest
request = record { row_start = 3; row_count = 2; column_start = 0; column_count = 2 }

abbrev plan : RangePlan
plan = record {
  checkpoint = record { row = 2; byte_offset = 12 };
  request = request;
  rows_to_skip = 1;
}

planned : plan_range plain request scanned ≡ ok plan
unfolding scanning plan_range validate_range validate_public cell_count column_end checked_end
    nearest partition_point
planned = refl

counted : request.row_start < scanned.rows
unfolding scanning
counted = omega arith

plan_range-nearest_example :
    (plan.request ≡ request)
    × IsAmong plan.checkpoint scanned.checkpoints
    × (plan.checkpoint.row + plan.rows_to_skip ≡ request.row_start)
    × (plan.rows_to_skip < scanned.options.checkpoint_interval)
plan_range-nearest_example =
    plan_range-nearest plain request scanned plan feed_chunk-IsIndexed_example planned counted

plan_range-bounds_example :
    (request.row_start + request.row_count ≤ max_safe_integer)
    × (request.column_start + request.column_count ≤ length scanned.columns)
    × (request.row_count * request.column_count ≤ scanned.options.limits.max_cells_per_range)
plan_range-bounds_example = plan_range-bounds plain request scanned plan planned
