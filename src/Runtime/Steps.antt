-- ===== src/Runtime/Steps.antt =====
-- Every sequence of calls into a runtime (runtime.rs), those that fail included.
use tabulark.Base.{ℕ, ◌≡◌, Bool}
use tabulark.Text.{Bytes}
use tabulark.Error.{ok}
use tabulark.State.{state_of}
use tabulark.Model.Range.{RangeRequest}
use tabulark.Csv.Core.{CsvCore}
use tabulark.Csv.Options.{DelimitedOptions}
use tabulark.Csv.Estimate.{Sizes, Capacities}
use tabulark.Config.{RuntimeConfig}
use tabulark.Runtime.{
  Runtime, new_runtime, open_delimited, scan_chunk, begin_range, feed_range, close_range,
  close_source, shutdown,
}
use tabulark.Runtime.Registry.{
  IsRegistry, new_runtime-IsRegistry, open_delimited-IsRegistry, scan_chunk-IsRegistry,
  begin_range-IsRegistry, feed_range-IsRegistry, close_range-IsRegistry, close_source-IsRegistry,
  shutdown-IsRegistry,
}

module _ (core : CsvCore) (z : Sizes) where
  -- A call that a client can make.
  pub data Call : Type 0 where
    open_source : DelimitedOptions → Call
    scan : (ℕ → Capacities) → ℕ → ℕ → Bytes → Bool → Call
    begin : ℕ → RangeRequest → Call
    feed : ℕ → ℕ → Bytes → Bool → Call
    cancel : ℕ → Call
    close : ℕ → Call
    stop : Call

  -- The runtime after a call, whether it succeeded or not.
  abbrev pub after : Call → Runtime core → Runtime core
  after (open_source o) r = state_of (open_delimited core o r)
  after (scan allocated source offset bytes eof) r =
      state_of (scan_chunk core z allocated source offset bytes eof r)
  after (begin source request) r = state_of (begin_range core source request r)
  after (feed range offset bytes eof) r = state_of (feed_range core range offset bytes eof r)
  after (cancel range) r = (close_range core range r).0
  after (close source) r = (close_source core source r).0
  after stop r = shutdown core r

  -- The runtimes that calls lead to from a new one.
  pub data IsReachable (config : RuntimeConfig) : Runtime core → Type 0 where
    start : (r : Runtime core) → new_runtime core config ≡ ok r → IsReachable config r
    call : (c : Call) (r : Runtime core) → IsReachable config r → IsReachable config (after c r)

  after-IsRegistry : (c : Call) (r : Runtime core) → IsRegistry core r → IsRegistry core (after c r)
  after-IsRegistry (open_source o) r w = open_delimited-IsRegistry core o r w
  after-IsRegistry (scan allocated source offset bytes eof) r w =
      scan_chunk-IsRegistry core z allocated source offset bytes eof r w
  after-IsRegistry (begin source request) r w = begin_range-IsRegistry core source request r w
  after-IsRegistry (feed range offset bytes eof) r w =
      feed_range-IsRegistry core range offset bytes eof r w
  after-IsRegistry (cancel range) r w = close_range-IsRegistry core range r w
  after-IsRegistry (close source) r w = close_source-IsRegistry core source r w
  after-IsRegistry stop r w = shutdown-IsRegistry core r w

  -- A runtime that calls lead to from a new one, failed calls included, has a registry in order: it
  -- has at most the configured number of sources and of ranges, the source of each range is open,
  -- and every handle in use is below the next one, which is a 32-bit word.
  pub reachable-IsRegistry :
      (config : RuntimeConfig) (r : Runtime core) → IsReachable config r → IsRegistry core r
  reachable-IsRegistry config _ (start r e) = new_runtime-IsRegistry core config r e
  reachable-IsRegistry config _ (call c r p) =
      after-IsRegistry c r (reachable-IsRegistry config r p)
