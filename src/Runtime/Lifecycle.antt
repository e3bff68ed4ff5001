-- ===== src/Runtime/Lifecycle.antt =====
-- When handles are made and closed (runtime.rs).
use tabulark.Model.Batch.{TableBatch}
use tabulark.Model.Range.{RangeRequest}
use mathlib.Core.Option.{some-injective}
use tabulark.Base.{
  ℕ, ◌+◌, ◌≡◌, refl, ap, ◌∙◌, Bool, true, false, List, [], ◌∷◌, Option, none, some, arith, All,
  ◌==◌, ==_iff, Bool-cases, inl, inr, not,
}
use tabulark.Text.{Bytes}
use tabulark.Error.{ok, err, Result}
use tabulark.State.{Outcome, done, fail, state_of, result_of}
use tabulark.Csv.Core.{CsvCore}
use tabulark.Csv.Options.{DelimitedOptions, RangePlan}
use tabulark.Csv.Scanner.{CsvScanner}
use tabulark.Csv.Scan.{new_scanner}
use tabulark.Csv.Decoder.{RangeDecoder}
use tabulark.Csv.Decode.{need_more, complete, immediate_batch, RangeDecodeStatus}
use tabulark.Csv.Decode
use tabulark.Maps.{lookup, remove, is_some, AreBelow, lookup-remove_self, lookup-remove_ne}
use tabulark.Config.{clamp}
use tabulark.Runtime.{
  Runtime, ActiveRange, allocate_handle, open_delimited, feed_range, feed_found, settle,
  retain_others, close_source, FeedRangeResult, more, completed, store_source, register,
  begin_range, BeginRangeResult, start_planned, plan_decoder,
}
use tabulark.Runtime.Registry.{IsRegistry}

below-lookup : {V : Type 0} (n : ℕ) (l : List (ℕ × V)) → AreBelow n l → lookup n l ≡ none
below-lookup n [] h = refl
below-lookup n ((k, v) ∷ l) h = ground (arith, below-lookup n l h.1, ==_iff k n)

module _ (core : CsvCore) where
  -- The answer asks for more bytes.
  abbrev pub asks_more : Result (FeedRangeResult core) → Bool
  asks_more (ok (more offset ds)) = true
  asks_more (ok (completed batch ds)) = false
  asks_more (err e) = false

  settle-closes :
      (range : ℕ) (a : ActiveRange core) (r : Runtime core)
      (o : Outcome (RangeDecoder core) RangeDecodeStatus)
      → lookup range r.ranges ≡ none
      → is_some (lookup range (state_of (settle core range a r o)).ranges)
        ≡ asks_more (result_of (settle core range a r o))
  settle-closes range a r (fail e d) h = ap is_some h
  settle-closes range a r (done (complete batch) d) h = ap is_some h
  settle-closes range a r (done need_more d) h = ground (arith, ==_iff range range)

  -- After a range is fed its handle is open if the answer asked for more bytes, and is closed if the
  -- batch was completed, if the decoder failed and if it was closed before.
  pub feed_range-closes :
      (range offset : ℕ) (bytes : Bytes) (eof : Bool) (r : Runtime core)
      → is_some (lookup range (state_of (feed_range core range offset bytes eof r)).ranges)
        ≡ asks_more (result_of (feed_range core range offset bytes eof r))
  unfolding feed_range
  feed_range-closes range offset bytes eof r = found (lookup range r.ranges) refl
    where
      found :
          (x : Option (ActiveRange core))
          → lookup range r.ranges ≡ x
          → is_some (lookup range (state_of (feed_found core range offset bytes eof x r)).ranges)
            ≡ asks_more (result_of (feed_found core range offset bytes eof x r))
      found none e = ap is_some e
      found (some a) e = ground (
        arith,
        settle-closes range a (record r { ranges = remove range r.ranges })
            (Decode.feed_chunk core offset bytes eof a.decoder) (lookup-remove_self range r.ranges),
        lookup-remove_self range r.ranges,
      )

  retain_others-sources :
      (source : ℕ) (l : List (ℕ × ActiveRange core))
      → All (λ p. (p.1.source == source) ≡ false) (retain_others core source l)
  unfolding retain_others
  retain_others-sources source [] = tt
  retain_others-sources source ((k, a) ∷ l) = ground (arith, retain_others-sources source l)

  -- Closing a source takes it out of the registry, with every range of it.
  pub close_source-ends :
      (source : ℕ) (r : Runtime core)
      → (lookup source ((close_source core source r).0).sources ≡ none)
        × All (λ p. (p.1.source == source) ≡ false) ((close_source core source r).0).ranges
  unfolding close_source
  close_source-ends source r =
      (lookup-remove_self source r.sources, retain_others-sources source r.ranges)

  lookup-retain_others :
      (range source : ℕ) (a : ActiveRange core) (l : List (ℕ × ActiveRange core))
      → (a.source == source) ≡ false
      → lookup range l ≡ some a
      → lookup range (retain_others core source l) ≡ some a
  unfolding retain_others
  lookup-retain_others range source a [] n e = cc
  lookup-retain_others range source a ((k, b) ∷ l) n e = elim (Bool-cases (k == range)) [
    | inl t ↦
        let same : b ≡ a = some-injective b a (rw t at e) in
        rw (ap (λ x. x.source == source) same ∙ n, t) (rw t at e)
    | inr t ↦ ground (arith, t, lookup-retain_others range source a l n (rw t at e))
  ]

  -- Closing a source leaves open every range of another source, with that source as it was.
  pub close_source-others :
      (source range : ℕ) (a : ActiveRange core) (r : Runtime core)
      → (a.source == source) ≡ false
      → lookup range r.ranges ≡ some a
      → (lookup a.source ((close_source core source r).0).sources ≡ lookup a.source r.sources)
        × (lookup range ((close_source core source r).0).ranges ≡ some a)
  unfolding close_source
  close_source-others source range a r n e = (
    lookup-remove_ne a.source source r.sources n,
    lookup-retain_others range source a r.ranges n e,
  )

  -- The handle that an opened source gets is not in use, and names that source afterwards.
  open_delimited-new :
      (o : DelimitedOptions) (r r' : Runtime core) (handle : ℕ)
      → IsRegistry core r
      → open_delimited core o r ≡ done handle r'
      → (lookup handle r.sources ≡ none)
        × (lookup handle r.ranges ≡ none)
        × (is_some (lookup handle r'.sources) ≡ true)
  unfolding open_delimited allocate_handle
  open_delimited-new o r r' handle w e = ground (
    arith,
    below-lookup r.next_handle r.sources w.sources_below,
    below-lookup r.next_handle r.ranges w.ranges_below,
    named (new_scanner core (clamp r.config o)),
    e,
  )
    where
      named :
          (x : Result (CsvScanner core))
          → store_source core r.next_handle x (record r { next_handle = r.next_handle + 1 })
            ≡ done handle r'
          → (r.next_handle ≡ handle) × (is_some (lookup handle r'.sources) ≡ true)
      named (err f) h = cc
      named (ok s) h = ground (arith, h, ==_iff handle handle)

  registered-open :
      (source handle : ℕ) (plan : RangePlan) (r r' : Runtime core) (result : BeginRangeResult core)
      (o : Outcome (RangeDecoder core) (Option TableBatch))
      → lookup handle r.ranges ≡ none
      → register core source handle plan r o ≡ done result r'
      → (result.range_handle ≡ handle)
        × (is_some (lookup handle r'.ranges) ≡ not (is_some result.batch))
  registered-open source handle plan r r' result (fail e d) free h = cc
  registered-open source handle plan r r' result (done (some b) d) free h = ground (arith, h, free)
  registered-open source handle plan r r' result (done none d) free h =
      ground (arith, h, ==_iff handle handle)

  -- The handle that a new range gets is not in use, and is open afterwards unless the answer has the
  -- batch already.
  begin_range-new :
      (source : ℕ) (request : RangeRequest) (r r' : Runtime core) (result : BeginRangeResult core)
      → IsRegistry core r
      → begin_range core source request r ≡ done result r'
      → (lookup result.range_handle r.sources ≡ none)
        × (lookup result.range_handle r.ranges ≡ none)
        × (is_some (lookup result.range_handle r'.ranges) ≡ not (is_some result.batch))
  unfolding begin_range allocate_handle
  begin_range-new source request r r' result w e = ground (
    arith,
    below-lookup r.next_handle r.sources w.sources_below,
    below-lookup r.next_handle r.ranges w.ranges_below,
    planned (plan_decoder core source request r),
    e,
  )
    where
      planned :
          (x : Result (RangePlan × RangeDecoder core))
          → start_planned core source x r ≡ done result r'
          → (r.next_handle ≡ result.range_handle)
            × (is_some (lookup result.range_handle r'.ranges) ≡ not (is_some result.batch))
      planned (err f) h = cc
      planned (ok p) h = ground (
        arith,
        h,
        registered-open source r.next_handle p.0 (record r { next_handle = r.next_handle + 1 }) r'
            result (immediate_batch core p.1) (below-lookup r.next_handle r.ranges w.ranges_below),
      )
