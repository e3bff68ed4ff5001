-- ===== src/Runtime.antt =====
-- src/runtime.rs: the registry of sources and ranges.
pub mod Registry
pub mod Steps
pub mod Lifecycle
pub mod Feeding
use tabulark.Base.{
  ℕ, zero, suc, ◌+◌, ◌*◌, Bool, true, false, not, ◌||◌, List, [], ◌∷◌, Option, none, some, leb, ltb,
  min, ◌==◌, if◌then◌else◌, length, drop, u32_max, usize_max, checked_add, saturating_add,
}
use tabulark.Maps.{lookup, remove, replace, is_some}
use tabulark.Config.{RuntimeConfig, clamp}
use tabulark.Text.{Bytes}
use tabulark.Error.{
  TabularkError, Result, ok, err, new, with_detail, number, invalid_argument, resource_limit,
  handle_closed, fail_if, ok_or, ◌>>=◌, ◌>>◌,
}
use tabulark.State
use tabulark.State.{M, Outcome, done, fail}
use tabulark.Model.Range.{RangeRequest}
use tabulark.Model.Schema.{TableMetadata}
use tabulark.Model.Batch.{TableBatch}
use tabulark.Csv.Core.{CsvCore}
use tabulark.Csv.Options.{DelimitedOptions, CsvDiagnostic, RangePlan}
use tabulark.Csv.Scanner.{CsvScanner}
use tabulark.Csv.Scan.{ScanUpdate, new_scanner, metadata}
use tabulark.Csv.Scan
use tabulark.Csv.Plan.{plan_range}
use tabulark.Csv.Decoder.{RangeDecoder}
use tabulark.Csv.Decode.{RangeDecodeStatus, need_more, complete, immediate_batch}
use tabulark.Csv.Decode
use tabulark.Csv.Memory.{range_decoder}
use tabulark.Csv.Estimate.{Sizes, Capacities, estimated_index_bytes}

module _ (core : CsvCore) where
  pub record ActiveRange : Type 0 where
    pub source : ℕ
    pub decoder : RangeDecoder core
    pub diagnostic_count : ℕ

  pub record Runtime : Type 0 where
    pub config : RuntimeConfig
    pub next_handle : ℕ
    pub sources : List (ℕ × CsvScanner core)
    pub ranges : List (ℕ × ActiveRange)

  -- `Runtime::new`
  unfoldable pub new_runtime : RuntimeConfig → Result Runtime
  new_runtime c = do
    fail_if
        (c.memory_budget_bytes == 0
          || c.index_budget_bytes == 0
          || c.tile_cache_budget_bytes == 0
          || c.chunk_bytes == 0
          || c.checkpoint_rows == 0
          || c.max_field_bytes == 0
          || c.max_columns == 0
          || c.max_range_cells == 0
          || c.max_batch_bytes == 0
          || c.max_sources == 0
          || c.max_active_ranges == 0)
        (new invalid_argument "runtime resource limits must be greater than zero")
    total ←
        ok_or (checked_add usize_max c.index_budget_bytes c.tile_cache_budget_bytes)
          (new invalid_argument "runtime sub-budget total exceeds the supported byte range")
    fail_if (ltb c.memory_budget_bytes total) (
        with_detail
          (with_detail
            (new invalid_argument
              "runtime sub-budget total must not exceed the total memory budget")
            "subBudgetBytes" (number total))
          "memoryBudgetBytes" (number c.memory_budget_bytes))
    ok (record { config = c; next_handle = 1; sources = []; ranges = [] })

  abbrev pub Run : Type 0 → Type 0
  Run A = Runtime → Outcome Runtime A

  -- A result that leaves the state alone.
  abbrev pub from_result :
      {A : Type 0} → Result A → (A → Outcome Runtime A) → Runtime → Outcome Runtime A
  from_result (ok a) k r = k a
  from_result (err e) k r = fail e r

  -- `allocate_handle`
  unfoldable pub allocate_handle : Run ℕ
  allocate_handle r =
      if leb (r.next_handle + 1) u32_max
      then done r.next_handle (record r { next_handle = r.next_handle + 1 })
      else fail (new resource_limit "runtime handle space exhausted") r

  abbrev pub store_source : ℕ → Result (CsvScanner core) → Run ℕ
  store_source handle (err e) r = fail e r
  store_source handle (ok s) r = done handle (record r { sources = (handle, s) ∷ r.sources })

  abbrev add_source : DelimitedOptions → Outcome Runtime ℕ → Outcome Runtime ℕ
  add_source o (fail e r) = fail e r
  add_source o (done handle r) = store_source handle (new_scanner core o) r

  unfoldable pub open_delimited : DelimitedOptions → Run ℕ
  open_delimited o r =
      if leb r.config.max_sources (length r.sources)
      then fail
          (with_detail (new resource_limit "runtime has reached its open-source limit") "maxSources"
            (number r.config.max_sources))
          r
      else add_source (clamp r.config o) (allocate_handle r)

  pub closed_source : TabularkError
  closed_source = new handle_closed "source handle is closed"

  -- The fold of the estimates of all open sources, at the capacities that their buffers have.
  pub retained_from : Sizes → (ℕ → Capacities) → ℕ → List (ℕ × CsvScanner core) → ℕ
  retained_from z allocated total [] = total
  retained_from z allocated total ((h, s) ∷ sources) =
      retained_from z allocated
        (saturating_add usize_max total (estimated_index_bytes core z (allocated h) s)) sources

  unfoldable pub retained_bytes : Sizes → (ℕ → Capacities) → Runtime → ℕ
  unfolding retained_from
  retained_bytes z allocated r = retained_from z allocated 0 r.sources

  abbrev within_budget : Sizes → (ℕ → Capacities) → ScanUpdate → Run ScanUpdate
  within_budget z allocated update r =
      let estimated = retained_bytes z allocated r in
      if ltb r.config.index_budget_bytes estimated
      then fail
          (with_detail
            (with_detail
              (new resource_limit
                "runtime sparse index and parser state exceed the configured byte budget")
              "estimatedBytes" (number estimated))
            "indexBudgetBytes" (number r.config.index_budget_bytes))
          r
      else done update r

  abbrev pub store_scan :
      Sizes
      → (ℕ → Capacities)
      → ℕ
      → Runtime
      → Outcome (CsvScanner core) ScanUpdate
      → Outcome Runtime ScanUpdate
  store_scan z allocated source r (fail e s) =
      fail e (record r { sources = replace source s r.sources })
  store_scan z allocated source r (done update s) =
      within_budget z allocated update (record r { sources = replace source s r.sources })

  abbrev pub scan_source :
      Sizes → (ℕ → Capacities) → ℕ → ℕ → Bytes → Bool → Option (CsvScanner core) → Run ScanUpdate
  scan_source z allocated source offset bytes eof none r = fail closed_source r
  scan_source z allocated source offset bytes eof (some s) r =
      store_scan z allocated source r (Scan.feed_chunk core offset bytes eof s)

  unfoldable pub scan_chunk : Sizes → (ℕ → Capacities) → ℕ → ℕ → Bytes → Bool → Run ScanUpdate
  scan_chunk z allocated source offset bytes eof r =
      scan_source z allocated source offset bytes eof (lookup source r.sources) r

  unfoldable pub runtime_metadata : ℕ → Runtime → Result TableMetadata
  runtime_metadata source r = do s ← ok_or (lookup source r.sources) closed_source; metadata core s

  pub record BeginRangeResult : Type 0 where
    pub range_handle : ℕ
    pub plan : RangePlan
    pub batch : Option TableBatch

  -- The plan of a request and a decoder for it.
  unfoldable pub plan_decoder : ℕ → RangeRequest → Runtime → Result (RangePlan × RangeDecoder core)
  plan_decoder source request r = do
    s ← ok_or (lookup source r.sources) closed_source
    plan ← plan_range core request s
    decoder ← range_decoder core plan s
    ok (plan, decoder)

  abbrev answer : ℕ → RangePlan → Option TableBatch → BeginRangeResult
  answer handle plan batch = record { range_handle = handle; plan = plan; batch = batch }

  abbrev pub register :
      ℕ
      → ℕ
      → RangePlan
      → Runtime
      → Outcome (RangeDecoder core) (Option TableBatch)
      → Outcome Runtime BeginRangeResult
  register source handle plan r (fail e d) = fail e r
  register source handle plan r (done (some batch) d) = done (answer handle plan (some batch)) r
  register source handle plan r (done none d) = done (answer handle plan none) (record r {
    ranges = (handle, record { source = source; decoder = d; diagnostic_count = 0 }) ∷ r.ranges;
  })

  abbrev start_range :
      ℕ → RangePlan × RangeDecoder core → Outcome Runtime ℕ → Outcome Runtime BeginRangeResult
  start_range source p (fail e r) = fail e r
  start_range source p (done handle r) = register source handle p.0 r (immediate_batch core p.1)

  abbrev pub start_planned : ℕ → Result (RangePlan × RangeDecoder core) → Run BeginRangeResult
  start_planned source (err e) r = fail e r
  start_planned source (ok p) r = start_range source p (allocate_handle r)

  unfoldable pub begin_range : ℕ → RangeRequest → Run BeginRangeResult
  begin_range source request r =
      if leb r.config.max_active_ranges (length r.ranges)
      then fail
          (with_detail (new resource_limit "runtime has reached its active-range limit")
            "maxActiveRanges" (number r.config.max_active_ranges))
          r
      else start_planned source (plan_decoder source request r) r

  pub data FeedRangeResult : Type 0 where
    more : ℕ → List CsvDiagnostic → FeedRangeResult
    completed : TableBatch → List CsvDiagnostic → FeedRangeResult

  -- The range was taken out of the registry, and goes back if it needs more.
  abbrev pub settle :
      ℕ
      → ActiveRange
      → Runtime
      → Outcome (RangeDecoder core) RangeDecodeStatus
      → Outcome Runtime FeedRangeResult
  settle range active r (fail e d) = fail e r
  settle range active r (done (complete batch) d) =
      done (completed batch (drop active.diagnostic_count d.diagnostics)) r
  settle range active r (done need_more d) =
      done (more d.expected_offset (drop active.diagnostic_count d.diagnostics)) (record r {
        ranges =
            (
              range,
              record {
                source = active.source;
                decoder = d;
                diagnostic_count = length d.diagnostics;
              },
            )
            ∷ r.ranges;
      })

  abbrev pub feed_active : ℕ → ℕ → Bytes → Bool → ActiveRange → Run FeedRangeResult
  feed_active range offset bytes eof active r =
      if is_some (lookup active.source r.sources)
      then settle range active r (Decode.feed_chunk core offset bytes eof active.decoder)
      else fail (new handle_closed "source owning this range has been closed") r

  abbrev pub feed_found : ℕ → ℕ → Bytes → Bool → Option ActiveRange → Run FeedRangeResult
  feed_found range offset bytes eof none r = fail (new handle_closed "range handle is closed") r
  feed_found range offset bytes eof (some active) r =
      feed_active range offset bytes eof active (record r { ranges = remove range r.ranges })

  unfoldable pub feed_range : ℕ → ℕ → Bytes → Bool → Run FeedRangeResult
  feed_range range offset bytes eof r = feed_found range offset bytes eof (lookup range r.ranges) r

  -- `cancel` and `close_range`
  unfoldable pub close_range : ℕ → Runtime → Runtime × Bool
  close_range range r =
      (record r { ranges = remove range r.ranges }, is_some (lookup range r.ranges))

  -- `ranges.retain(|_, range| range.source != source)`
  pub retain_others : ℕ → List (ℕ × ActiveRange) → List (ℕ × ActiveRange)
  retain_others source [] = []
  retain_others source ((h, a) ∷ ranges) =
      if a.source == source
      then retain_others source ranges
      else (h, a) ∷ retain_others source ranges

  unfoldable pub close_source : ℕ → Runtime → Runtime × Bool
  close_source source r = (
    record r { sources = remove source r.sources; ranges = retain_others source r.ranges },
    is_some (lookup source r.sources),
  )

  unfoldable pub shutdown : Runtime → Runtime
  shutdown r = record r { ranges = []; sources = [] }
