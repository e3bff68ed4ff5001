-- ===== src/Csv/Plan.antt =====
-- src/csv.rs: `CsvScanner` plans a range read from its checkpoints.
pub mod Bounds
pub mod Nearest
use tabulark.Base.{
  ℕ, zero, suc, ◌+◌, ◌-◌, Bool, true, false, not, ◌&&◌, List, [], ◌∷◌, Option, none, some, leb, ltb,
  ◌==◌, if◌then◌else◌, length, get_elem?, checked_sub,
}
use tabulark.Error.{
  Result, ok, err, new, with_detail, with_retryable, number, resource_limit, invalid_range,
  range_not_indexed, fail_if, ◌>>=◌, ◌>>◌,
}
use tabulark.Model.Range.{RangeRequest, validate_public, cell_count, column_end}
use tabulark.Csv.Core.{CsvCore}
use tabulark.Csv.Options.{CsvCheckpoint, RangePlan}
use tabulark.Csv.Scanner.{CsvScanner}

-- `partition_point(|checkpoint| checkpoint.row <= row)`: the length of the part in front, which
-- the library finds by a binary search where the list is so partitioned.
unfoldable pub partition_point : ℕ → List CsvCheckpoint → ℕ
partition_point row [] = 0
partition_point row (c ∷ cs) = if leb c.row row then suc (partition_point row cs) else 0

abbrev get_at : Option ℕ → List CsvCheckpoint → Option CsvCheckpoint
get_at none cs = none
get_at (some i) cs = get_elem? cs i

abbrev unwrap_or : Option CsvCheckpoint → CsvCheckpoint → CsvCheckpoint
unwrap_or none d = d
unwrap_or (some c) d = c

-- The last checkpoint at or before a row.
unfoldable pub nearest : ℕ → List CsvCheckpoint → CsvCheckpoint → CsvCheckpoint
unfolding partition_point
nearest row cs default = unwrap_or (get_at (checked_sub (partition_point row cs) 1) cs) default

module _ (core : CsvCore) where
  unfoldable pub validate_range : RangeRequest → CsvScanner core → Result (Unit {0})
  validate_range request s = do
    validate_public request
    cells ← cell_count request
    fail_if (ltb s.options.limits.max_cells_per_range cells) (
        with_detail (new resource_limit "range exceeds the configured cell limit") "maxCells"
          (number s.options.limits.max_cells_per_range))
    end ← column_end request
    fail_if (ltb (length s.columns) end) (
        with_detail (new invalid_range "requested columns exceed the current schema")
          "schemaColumns" (number (length s.columns)))

  unfoldable pub plan_range : RangeRequest → CsvScanner core → Result RangePlan
  plan_range request s = do
    validate_range request s
    fail_if (ltb 0 request.row_count && not s.finished && leb s.rows request.row_start) (
        with_detail
          (with_retryable (new range_not_indexed "requested row has not been indexed yet") true)
          "indexedRows" (number s.rows))
    let checkpoint =
        nearest request.row_start s.checkpoints
          (record { row = s.rows; byte_offset = s.parser_offset })
    ok (record {
      checkpoint = checkpoint;
      request = request;
      rows_to_skip = request.row_start - checkpoint.row;
    })
