-- ===== src/Csv/Scan.antt =====
-- src/csv.rs: `CsvScanner` fed with chunks, and the snapshots that it gives.
pub mod Index
pub mod Invariants
pub mod Limits
use tabulark.Base.{
  ℕ, zero, suc, ◌+◌, ◌-◌, Bool, true, false, not, ◌&&◌, ◌||◌, List, [], ◌∷◌, ◌++◌, Option, none,
  some, leb, ltb, ◌==◌, if◌then◌else◌, length, drop, u64_max, checked_add,
}
use tabulark.Text.{Bytes, codes}
use tabulark.Error.{
  TabularkError, Result, ok, new, invalid_argument, resource_limit, runtime_failure, handle_closed,
}
use tabulark.Error
use tabulark.State.{
  M, done, fail, pure, throw, get, put, modify, lift, some_or, throw_if, ◌>>=◌, ◌>>◌,
}
use tabulark.Model.Range.{AxisExtent, unknown, new_exact, new_at_least}
use tabulark.Model.Schema.{TableMetadata, new_schema, delimited, full, indexed_prefix}
use tabulark.Csv.Core.{CsvCore, Read, ReadFieldResult, input_empty, output_full, field, end}
use tabulark.Csv.Options.{DelimitedOptions, validate, CsvDiagnostic, CsvCheckpoint, malformed_quote}
use tabulark.Csv.Diagnostics.{offset_error}
use tabulark.Csv.Quotes.{QuoteTracker, QuoteIssue, new_tracker, consume, unclosed_quote_offset}
use tabulark.Csv.Scanner.{
  CsvScanner, Scan, handle_diagnostic, append_field, finish_field, finish_record,
}
use tabulark.Csv.Process.{process_bytes, finish}

abbrev pub utf8_bom : Bytes
utf8_bom = 0xef ∷ 0xbb ∷ 0xbf ∷ []

-- `whole.starts_with(&part)`
unfoldable pub starts_with : Bytes → Bytes → Bool
starts_with whole [] = true
starts_with [] (b ∷ part) = false
starts_with (a ∷ whole) (b ∷ part) = a == b && starts_with whole part

-- The loop that moves bytes into the prefix: the prefix, and the input behind the cursor.
unfoldable pub take_prefix : Bytes → Bytes → Bytes × Bytes
unfolding starts_with
take_prefix prefix [] = (prefix, [])
take_prefix prefix (b ∷ bytes) =
    let longer = prefix ++ b ∷ [] in
    let rest = take_prefix longer bytes in
    if ltb (length prefix) 3
    then (if starts_with utf8_bom longer then rest else (longer, bytes))
    else (prefix, b ∷ bytes)

pub record ScanUpdate : Type 0 where
  pub metadata : TableMetadata
  pub bytes_scanned : ℕ
  pub rows_discovered : ℕ
  pub checkpoints_added : List CsvCheckpoint
  pub warnings : List CsvDiagnostic
  pub done : Bool

module _ (core : CsvCore) where
  -- `CsvScanner::new`
  unfoldable pub new_scanner : DelimitedOptions → Result (CsvScanner core)
  new_scanner o = Error.◌>>◌ (validate o) (
      ok (record {
        options = o;
        reader = core.build o.delimiter;
        lexical = new_tracker o.delimiter;
        bom_prefix = [];
        bom_resolved = false;
        bytes_received = 0;
        parser_offset = 0;
        record_start_offset = 0;
        field = [];
        record_fields = 0;
        header_names = [];
        header_pending = o.header;
        rows = 0;
        columns = [];
        column_string_bytes = 0;
        schema_version = 0;
        checkpoints = [];
        diagnostics = [];
        finished = false;
      }))

  unfoldable pub metadata : CsvScanner core → Result TableMetadata
  metadata s =
      let columns =
        if s.finished
        then new_exact (length s.columns)
        else if length s.columns == 0
        then ok unknown
        else new_at_least (length s.columns) in
      Error.◌>>=◌ (if s.finished then new_exact s.rows else new_at_least s.rows) λ row_extent.
        Error.◌>>=◌ columns λ column_extent.
          Error.◌>>=◌ (new_schema s.schema_version s.columns) λ schema. ok (record {
            table_id = codes "table-0";
            name = s.options.table_name;
            revision = 0;
            extent = record { rows = row_extent; columns = column_extent };
            schema = schema;
            capabilities = delimited (if s.finished then full else indexed_prefix);
          })

  -- The prefix was decided to be a byte order mark, or to be data.
  unfoldable pub resolve : Bytes → Scan core (Unit {0})
  resolve prefix =
      if starts_with utf8_bom prefix && length prefix == 3
      then modify (λ s. record s {
        bom_resolved = true;
        parser_offset = 3;
        record_start_offset = 3;
        bom_prefix = [];
      })
      else (do
        modify (λ s. record s { bom_resolved = true; bom_prefix = [] })
        process_bytes core 0 prefix)

  -- What is left of the chunk once the byte order mark was looked for.
  unfoldable pub resolve_bom : Bytes → Bool → Scan core Bytes
  resolve_bom bytes eof = do
    s ← get
    if s.bom_resolved then pure bytes else (do
      let (prefix, rest) = take_prefix s.bom_prefix bytes
      modify (λ t. record t { bom_prefix = prefix })
      if not (starts_with utf8_bom prefix) || length prefix == 3 || eof
          then resolve prefix
          else pure tt
      pure rest)

  abbrev pub if_resolved : Scan core (Unit {0}) → Scan core (Unit {0})
  if_resolved m = do s ← get; if s.bom_resolved then m else pure tt

  abbrev finish_at_eof : Scan core (Unit {0})
  finish_at_eof = do
    s ← get
    if s.bom_resolved then pure tt else (do
      modify (λ t. record t { bom_resolved = true; bom_prefix = [] })
      process_bytes core 0 s.bom_prefix)
    finish core

  abbrev snapshot : ℕ → ℕ → CsvScanner core → TableMetadata → ScanUpdate
  snapshot checkpoints_before diagnostics_before s m = record {
    metadata = m;
    bytes_scanned = s.bytes_received;
    rows_discovered = s.rows;
    checkpoints_added = drop checkpoints_before s.checkpoints;
    warnings = drop diagnostics_before s.diagnostics;
    done = s.finished;
  }

  -- The part of `feed_chunk` that reads the chunk.
  unfoldable pub read_chunk : ℕ → Bytes → Bool → Scan core (Unit {0})
  read_chunk absolute_offset bytes eof = do
    rest ← resolve_bom bytes eof
    if_resolved (
        if length rest == 0
        then pure tt
        else process_bytes core (absolute_offset + (length bytes - length rest)) rest)
    if eof then finish_at_eof else pure tt

  unfoldable pub feed_chunk : ℕ → Bytes → Bool → Scan core ScanUpdate
  feed_chunk absolute_offset bytes eof = do
    s ← get
    throw_if s.finished (new handle_closed "CSV scanner is already finalized")
    throw_if (not (absolute_offset == s.bytes_received)) (
        offset_error (new invalid_argument "CSV scan chunks must be contiguous and ordered")
          s.bytes_received absolute_offset)
    received ←
        some_or (checked_add u64_max s.bytes_received (length bytes))
          (new resource_limit "source byte offset overflow")
    modify (λ t. record t { bytes_received = received })
    read_chunk absolute_offset bytes eof
    t ← get
    m ← lift (metadata t)
    pure (snapshot (length s.checkpoints) (length s.diagnostics) t m)
