-- ===== src/Csv/Options.antt =====
-- src/csv.rs: options, diagnostics, checkpoints and plans.
use tabulark.Base.{ℕ, ◌*◌, Bool, true, ◌||◌, not, Option, String, ltb, ◌==◌}
use tabulark.Text.{Bytes, codes}
use tabulark.Error.{Result, new, invalid_argument, fail_if, ◌>>◌}
use tabulark.Model.Range.{RangeRequest}

pub data ParseMode : Type 0 where
  lenient strict : ParseMode

pub record CsvLimits : Type 0 where
  pub max_field_bytes : ℕ
  pub max_columns : ℕ
  pub max_cells_per_range : ℕ
  pub max_batch_bytes : ℕ
  pub max_diagnostics : ℕ

abbrev pub default_limits : CsvLimits
default_limits = record {
  max_field_bytes = 16 * 1024 * 1024;
  max_columns = 16_384;
  max_cells_per_range = 250_000;
  max_batch_bytes = 32 * 1024 * 1024;
  max_diagnostics = 1_000;
}

pub record DelimitedOptions : Type 0 where
  pub delimiter : ℕ
  pub header : Bool
  pub mode : ParseMode
  pub checkpoint_interval : ℕ
  pub table_name : Bytes
  pub limits : CsvLimits

-- `DelimitedOptions::csv` and `DelimitedOptions::tsv`.
abbrev pub csv : DelimitedOptions
csv = record {
  delimiter = b',';
  header = true;
  mode = lenient;
  checkpoint_interval = 1_024;
  table_name = codes "Table 1";
  limits = default_limits;
}

abbrev pub tsv : DelimitedOptions
tsv = record csv { delimiter = b'\t' }

unfoldable pub validate : DelimitedOptions → Result (Unit {0})
validate o = do
  fail_if
      (not (ltb o.delimiter 128)
        || o.delimiter == 0
        || o.delimiter == b'\r'
        || o.delimiter == b'\n'
        || o.delimiter == b'"')
      (new invalid_argument "delimiter must be one non-NUL ASCII byte other than CR, LF, or quote")
  fail_if (o.checkpoint_interval == 0)
      (new invalid_argument "checkpoint interval must be greater than zero")
  fail_if
      (o.limits.max_field_bytes == 0
        || o.limits.max_columns == 0
        || o.limits.max_cells_per_range == 0
        || o.limits.max_batch_bytes == 0)
      (new invalid_argument "CSV resource limits must be greater than zero")

pub data CsvDiagnosticKind : Type 0 where
  ragged_row invalid_utf8 malformed_quote : CsvDiagnosticKind

pub record CsvDiagnostic : Type 0 where
  pub kind : CsvDiagnosticKind
  pub row : Option ℕ
  pub byte_offset : ℕ
  pub message : String

-- `diagnostic_kind_name`
abbrev pub kind_name : CsvDiagnosticKind → String
kind_name ragged_row = "ragged-row"
kind_name invalid_utf8 = "invalid-utf8"
kind_name malformed_quote = "malformed-quote"

pub record CsvCheckpoint : Type 0 where
  pub row : ℕ
  pub byte_offset : ℕ

pub record RangePlan : Type 0 where
  pub checkpoint : CsvCheckpoint
  pub request : RangeRequest
  pub rows_to_skip : ℕ

-- `RangePlan::source_offset`
abbrev pub source_offset : RangePlan → ℕ
source_offset p = p.checkpoint.byte_offset
