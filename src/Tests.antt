-- ===== src/Tests.antt =====
-- Inputs for the examples of csv.rs and runtime.rs: a reader in place of the crate csv_core, and a
-- scanner with it.
mod Scanning
mod Reading
mod Registry
mod Ledger
mod Columns
mod Quoting
mod Typed
mod Operation
mod Workbook
mod Package
use tabulark.Base.{
  ℕ, zero, suc, ◌+◌, ◌≤◌, ◌<◌, ◌≡◌, ◌≢◌, refl, arith, Bool, true, false, List, [], ◌∷◌, none, some,
  ◌==◌, if◌then◌else◌, length, Option,
}
use tabulark.Text.{Bytes, codes}
use tabulark.Csv.Core.{
  CsvCore, Read, ReadFieldResult, input_empty, output_full, field, end, IsDocumented,
}
use tabulark.Csv.Options.{DelimitedOptions, csv, CsvCheckpoint}
use tabulark.Csv.Quotes.{new_tracker}
use tabulark.Csv.Builder.{new_builder}
use tabulark.Csv.Decoder.{RangeDecoder}
use tabulark.State.{state_of, monad}
use tabulark.Csv.Quotes.{consume, step_in, unclosed_quote_offset}
use tabulark.Utf8.{is_valid, is_valid_from, lead}
use tabulark.Text.{decimal, digits, digits_onto}
use tabulark.Model.Schema.{new_column, new_schema, check_indexes, delimited}
use tabulark.Model.Range.{validate_safe_integer, new_exact, new_at_least}
use tabulark.Csv.Process.{
  report, advance, read_field, dispatch, round, rounds, process_bytes, dispatch_eof, drain, finish,
}
use tabulark.Csv.Scan.{
  starts_with, take_prefix, resolve, resolve_bom, read_chunk, feed_chunk, metadata,
}
use tabulark.Csv.Scanner.{
  CsvScanner, handle_diagnostic, append_field, finish_field, add_columns, ensure_columns,
  finish_record,
}

-- A reader without quotes: its delimiter, and whether a record has been begun.
pub record Plain : Type 0 where
  pub delimiter : ℕ
  pub begun : Bool

abbrev longer : ℕ → Read Plain → Read Plain
longer b r = record r { consumed = suc r.consumed; written = b ∷ r.written }

-- A field ends at the delimiter or the line feed, which are consumed with it.
pub read_plain : Plain → Bytes → Read Plain
read_plain p [] = record {
  result = input_empty;
  consumed = 0;
  written = [];
  reader = record p { begun = true };
}
read_plain p (b ∷ bs) =
    let rest = longer b (read_plain p bs) in
    if b == p.delimiter
    then record {
      result = field false;
      consumed = 1;
      written = [];
      reader = record p { begun = true };
    }
    else if b == b'\n'
    then record {
      result = field true;
      consumed = 1;
      written = [];
      reader = record p { begun = false };
    }
    else rest

-- Without input, the record at hand is ended first.
unfoldable pub read_next : Plain → Bytes → Read Plain
unfolding read_plain
read_next p [] = record {
  result = if p.begun then field true else end;
  consumed = 0;
  written = [];
  reader = record p { begun = false };
}
read_next p (b ∷ bs) = read_plain p (b ∷ bs)

abbrev pub plain : CsvCore
plain = record {
  Reader = Plain;
  build = λ delimiter. record { delimiter = delimiter; begun = false };
  read_field = read_next;
  string_capacity = length;
}

read_plain-le : (p : Plain) (bs : Bytes) → (read_plain p bs).consumed ≤ length bs
unfolding read_plain
read_plain-le p [] = omega arith
read_plain-le p (b ∷ bs) = ground (arith, read_plain-le p bs)

read_plain-exhausted :
    (p : Plain) (bs : Bytes)
    → (read_plain p bs).result ≡ input_empty
    → (read_plain p bs).consumed ≡ length bs
unfolding read_plain
read_plain-exhausted p [] h = refl
read_plain-exhausted p (b ∷ bs) h = ground (arith, h, read_plain-exhausted p bs)

pub plain-IsDocumented : IsDocumented plain
unfolding read_next read_plain
plain-IsDocumented = record {
  consumed_le = λ p. elim [ [] ↦ omega arith | b ∷ bs ↦ read_plain-le p (b ∷ bs) ];
  progress = λ p. elim [ [] ↦ λ n. absurd (n refl) | b ∷ bs ↦ λ n. ground arith ];
  exhausted = λ p. elim [ [] ↦ λ h. refl | b ∷ bs ↦ read_plain-exhausted p (b ∷ bs) ];
}

-- A checkpoint for every second row.
abbrev pub options : DelimitedOptions
options = record csv { checkpoint_interval = 2 }

abbrev pub fresh : CsvScanner plain
fresh = record {
  options = options;
  reader = plain.build b',';
  lexical = new_tracker b',';
  bom_prefix = [];
  bom_resolved = false;
  bytes_received = 0;
  parser_offset = 0;
  record_start_offset = 0;
  field = [];
  record_fields = 0;
  header_names = [];
  header_pending = true;
  rows = 0;
  columns = [];
  column_string_bytes = 0;
  schema_version = 0;
  checkpoints = [];
  diagnostics = [];
  finished = false;
}

-- A header and five rows of two columns.
abbrev pub table : Bytes
table = codes "k,v\na,1\nb,2\nc,3\nd,4\ne,5\n"

-- Opens what a scan of the table runs.
unfoldable pub scanning : Unit {0}
unfolding monad read_next read_plain starts_with take_prefix consume step_in unclosed_quote_offset
    handle_diagnostic append_field finish_field add_columns ensure_columns finish_record report
    advance read_field dispatch round rounds process_bytes dispatch_eof drain finish resolve
    resolve_bom read_chunk feed_chunk metadata is_valid is_valid_from lead new_column new_schema
    check_indexes validate_safe_integer new_exact new_at_least delimited decimal digits digits_onto
scanning = tt

-- The scanner behind the whole table.
abbrev pub scanned : CsvScanner plain
scanned = state_of (feed_chunk plain 0 table true fresh)

-- A decoder for rows 3 and 4, from the checkpoint at row 2.
abbrev pub decoder : RangeDecoder plain
decoder = record {
  options = options;
  plan = record {
    checkpoint = record { row = 2; byte_offset = 12 };
    request = record { row_start = 3; row_count = 2; column_start = 0; column_count = 2 };
    rows_to_skip = 1;
  };
  schema = record { version = 1; columns = scanned.columns };
  reader = plain.build b',';
  lexical = new_tracker b',';
  expected_offset = 12;
  field = [];
  field_index = 0;
  current_row = 2;
  selected_values = [] ∷ [] ∷ [];
  selected_valid = false ∷ false ∷ [];
  builders = new_builder (codes "c0") ∷ new_builder (codes "c1") ∷ [];
  returned_rows = 0;
  batch_bytes = 8;
  diagnostics = [];
  done = false;
}
