-- ===== src/Runtime/Registry.antt =====
-- The registry keeps its invariant (runtime.rs): handles in use are below the next one, a range's
-- source is open, and the limits on sources and ranges are kept.
use tabulark.Base.{
  ℕ, ◌+◌, ◌≤◌, ◌<◌, ◌≡◌, refl, ap, ◌∙◌, Bool, true, List, [], ◌∷◌, Option, none, some, arith,
  length, All, u32_max, ◌==◌, Bool-cases, Option-cases, inl, inr,
}
use tabulark.Text.{Bytes}
use tabulark.Error.{ok, err, Result}
use tabulark.State.{Outcome, done, fail, state_of}
use tabulark.Model.Range.{RangeRequest}
use tabulark.Csv.Core.{CsvCore}
use tabulark.Csv.Options.{DelimitedOptions, RangePlan}
use tabulark.Csv.Scanner.{CsvScanner}
use tabulark.Csv.Scan.{new_scanner, ScanUpdate}
use tabulark.Csv.Scan
use tabulark.Csv.Decoder.{RangeDecoder}
use tabulark.Csv.Decode.{need_more, complete, immediate_batch, RangeDecodeStatus}
use tabulark.Csv.Decode
use tabulark.Csv.Estimate.{Sizes, Capacities}
use tabulark.Maps.{
  lookup, remove, replace, is_some, AreBelow, AreBelow-mono, All-remove, length-remove,
  length-remove_found, length-replace, replace-AreBelow, lookup-replace, lookup-remove_ne,
  All-lookup,
}
use tabulark.Config.{RuntimeConfig, clamp}
use tabulark.Runtime.{
  Runtime, ActiveRange, new_runtime, allocate_handle, open_delimited, scan_chunk, begin_range,
  feed_range, close_range, retain_others, close_source, shutdown, plan_decoder, store_scan,
  scan_source, feed_found, start_planned, store_source, settle,
}

module _ (core : CsvCore) where
  -- The source of a range is open.
  abbrev pub IsOwned : List (ℕ × CsvScanner core) → ℕ × ActiveRange core → Type 0
  IsOwned sources p = is_some (lookup p.1.source sources) ≡ true

  pub record IsRegistry (r : Runtime core) : Type 0 where
    pub next_le_max : r.next_handle ≤ u32_max
    pub sources_below : AreBelow r.next_handle r.sources
    pub ranges_below : AreBelow r.next_handle r.ranges
    pub owned : All (IsOwned r.sources) r.ranges
    pub sources_le_max : length r.sources ≤ r.config.max_sources
    pub ranges_le_max : length r.ranges ≤ r.config.max_active_ranges

  owned-cons :
      (h : ℕ) (s : CsvScanner core) (sources : List (ℕ × CsvScanner core))
      (l : List (ℕ × ActiveRange core))
      → All (IsOwned sources) l
      → All (IsOwned ((h, s) ∷ sources)) l
  owned-cons h s sources [] o = tt
  owned-cons h s sources ((k, a) ∷ l) o = ground (arith, owned-cons h s sources l o.1)

  owned-replace :
      (h : ℕ) (s : CsvScanner core) (sources : List (ℕ × CsvScanner core))
      (l : List (ℕ × ActiveRange core))
      → All (IsOwned sources) l
      → All (IsOwned (replace h s sources)) l
  owned-replace h s sources [] o = tt
  owned-replace h s sources ((k, a) ∷ l) o =
      (lookup-replace a.source h s sources ∙ o.0, owned-replace h s sources l o.1)

  owned-retain :
      (h : ℕ) (sources : List (ℕ × CsvScanner core)) (l : List (ℕ × ActiveRange core))
      → All (IsOwned sources) l
      → All (IsOwned (remove h sources)) (retain_others core h l)
  unfolding retain_others
  owned-retain h sources [] o = tt
  owned-retain h sources ((k, a) ∷ l) o = elim (Bool-cases (a.source == h)) [
    | inl e ↦ rw e (owned-retain h sources l o.1)
    | inr e ↦
        rw e
          (ap is_some (lookup-remove_ne a.source h sources e) ∙ o.0, owned-retain h sources l o.1)
  ]

  retain-All :
      (P : ℕ × ActiveRange core → Type 0) (h : ℕ) (l : List (ℕ × ActiveRange core))
      → All P l
      → All P (retain_others core h l)
  unfolding retain_others
  retain-All P h [] a = tt
  retain-All P h ((k, x) ∷ l) a = ground (arith, retain-All P h l a.1)

  length-retain :
      (h : ℕ) (l : List (ℕ × ActiveRange core)) → length (retain_others core h l) ≤ length l
  unfolding retain_others
  length-retain h [] = omega arith
  length-retain h ((k, x) ∷ l) = ground (arith, length-retain h l)

  -- A plan is made for an open source only.
  plan_decoder-open :
      (source : ℕ) (request : RangeRequest) (r : Runtime core) (p : RangePlan × RangeDecoder core)
      → plan_decoder core source request r ≡ ok p
      → is_some (lookup source r.sources) ≡ true
  unfolding plan_decoder
  plan_decoder-open source request r p e = elim (Option-cases (lookup source r.sources)) [
    | inl n ↦ ground arith
    | inr x ↦ ap is_some x.1
  ]

  pub new_runtime-IsRegistry :
      (c : RuntimeConfig) (r : Runtime core) → new_runtime core c ≡ ok r → IsRegistry r
  unfolding new_runtime
  new_runtime-IsRegistry c r e = ground arith

  pub open_delimited-IsRegistry :
      (o : DelimitedOptions) (r : Runtime core)
      → IsRegistry r
      → IsRegistry (state_of (open_delimited core o r))
  unfolding open_delimited allocate_handle
  open_delimited-IsRegistry o r w = ground (arith, stored (new_scanner core (clamp r.config o)))
    where
      stored :
          (x : Result (CsvScanner core))
          → length r.sources < r.config.max_sources
          → r.next_handle + 1 ≤ u32_max
          → IsRegistry (
              state_of
                (store_source core r.next_handle x (record r { next_handle = r.next_handle + 1 })))
      stored (err e) l m = ground (
        arith,
        AreBelow-mono r.next_handle (r.next_handle + 1) r.sources,
        AreBelow-mono r.next_handle (r.next_handle + 1) r.ranges,
      )
      stored (ok s) l m = ground (
        arith,
        AreBelow-mono r.next_handle (r.next_handle + 1) r.sources,
        AreBelow-mono r.next_handle (r.next_handle + 1) r.ranges,
        owned-cons r.next_handle s r.sources r.ranges w.owned,
      )

  pub scan_chunk-IsRegistry :
      (z : Sizes) (allocated : ℕ → Capacities) (source offset : ℕ) (bytes : Bytes) (eof : Bool)
      (r : Runtime core)
      → IsRegistry r
      → IsRegistry (state_of (scan_chunk core z allocated source offset bytes eof r))
  unfolding scan_chunk
  scan_chunk-IsRegistry z allocated source offset bytes eof r w = found (lookup source r.sources)
    where
      stored :
          (s : CsvScanner core) → IsRegistry (record r { sources = replace source s r.sources })
      stored s = record {
        next_le_max = w.next_le_max;
        sources_below = replace-AreBelow r.next_handle source s r.sources w.sources_below;
        ranges_below = w.ranges_below;
        owned = owned-replace source s r.sources r.ranges w.owned;
        sources_le_max = rw (length-replace source s r.sources) w.sources_le_max;
        ranges_le_max = w.ranges_le_max;
      }

      go :
          (out : Outcome (CsvScanner core) ScanUpdate)
          → IsRegistry (state_of (store_scan core z allocated source r out))
      go (fail e s) = stored s
      go (done u s) = ground (arith, stored s)

      found :
          (x : Option (CsvScanner core))
          → IsRegistry (state_of (scan_source core z allocated source offset bytes eof x r))
      found none = w
      found (some s) = go (Scan.feed_chunk core offset bytes eof s)

  pub begin_range-IsRegistry :
      (source : ℕ) (request : RangeRequest) (r : Runtime core)
      → IsRegistry r
      → IsRegistry (state_of (begin_range core source request r))
  unfolding begin_range allocate_handle
  begin_range-IsRegistry source request r w =
      ground (arith, planned (plan_decoder core source request r) refl)
    where
      planned :
          (x : Result (RangePlan × RangeDecoder core))
          → plan_decoder core source request r ≡ x
          → length r.ranges < r.config.max_active_ranges
          → IsRegistry (state_of (start_planned core source x r))
      planned (err e) h l = w
      planned (ok p) h l = ground (
        arith,
        AreBelow-mono r.next_handle (r.next_handle + 1) r.sources,
        AreBelow-mono r.next_handle (r.next_handle + 1) r.ranges,
        plan_decoder-open source request r p h,
      )

  pub feed_range-IsRegistry :
      (range offset : ℕ) (bytes : Bytes) (eof : Bool) (r : Runtime core)
      → IsRegistry r
      → IsRegistry (state_of (feed_range core range offset bytes eof r))
  unfolding feed_range
  feed_range-IsRegistry range offset bytes eof r w = found (lookup range r.ranges) refl
    where
      taken : IsRegistry (record r { ranges = remove range r.ranges })
      taken = ground (
        arith,
        All-remove (λ p. p.0 < r.next_handle) range r.ranges w.ranges_below,
        All-remove (IsOwned r.sources) range r.ranges w.owned,
        length-remove range r.ranges,
      )

      settled :
          (x : ActiveRange core)
          → lookup range r.ranges ≡ some x
          → (o : Outcome (RangeDecoder core) RangeDecodeStatus)
          → is_some (lookup x.source r.sources) ≡ true
          → IsRegistry
              (state_of (settle core range x (record r { ranges = remove range r.ranges }) o))
      settled x e (fail f d) t = taken
      settled x e (done (complete batch) d) t = taken
      settled x e (done need_more d) t = record {
        next_le_max = w.next_le_max;
        sources_below = w.sources_below;
        ranges_below = (
          All-lookup (λ p. p.0 < r.next_handle) range r.ranges x w.ranges_below e,
          taken.ranges_below,
        );
        owned = (t, taken.owned);
        sources_le_max = w.sources_le_max;
        ranges_le_max = ground (arith, length-remove_found range r.ranges x e, w.ranges_le_max);
      }

      found :
          (x : Option (ActiveRange core))
          → lookup range r.ranges ≡ x
          → IsRegistry (state_of (feed_found core range offset bytes eof x r))
      found none e = w
      found (some x) e =
          ground (arith, settled x e (Decode.feed_chunk core offset bytes eof x.decoder), taken)

  pub close_range-IsRegistry :
      (range : ℕ) (r : Runtime core) → IsRegistry r → IsRegistry ((close_range core range r).0)
  unfolding close_range
  close_range-IsRegistry range r w = ground (
    arith,
    All-remove (λ p. p.0 < r.next_handle) range r.ranges w.ranges_below,
    All-remove (IsOwned r.sources) range r.ranges w.owned,
    length-remove range r.ranges,
  )

  pub close_source-IsRegistry :
      (source : ℕ) (r : Runtime core) → IsRegistry r → IsRegistry ((close_source core source r).0)
  unfolding close_source
  close_source-IsRegistry source r w = record {
    next_le_max = w.next_le_max;
    sources_below = All-remove (λ p. p.0 < r.next_handle) source r.sources w.sources_below;
    ranges_below = retain-All (λ p. p.0 < r.next_handle) source r.ranges w.ranges_below;
    owned = owned-retain source r.sources r.ranges w.owned;
    sources_le_max = ground (arith, length-remove source r.sources);
    ranges_le_max = ground (arith, length-retain source r.ranges);
  }

  pub shutdown-IsRegistry : (r : Runtime core) → IsRegistry r → IsRegistry (shutdown core r)
  unfolding shutdown
  shutdown-IsRegistry r w = ground arith
