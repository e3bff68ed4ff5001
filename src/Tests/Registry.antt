-- ===== src/Tests/Registry.antt =====
-- Examples for the runtime (runtime.rs).
use tabulark.Csv.Decode.{immediate_batch}
use tabulark.Csv.Decoder.{new_decoder}
use tabulark.Csv.Memory.{range_decoder}
use tabulark.Csv.Plan.{plan_range, validate_range, nearest, partition_point}
use tabulark.Model.Range.{RangeRequest, validate_public, cell_count, column_end, checked_end}
use tabulark.Base.{List, ◌++◌, ◌≡◌, refl, arith, true, false, [], ◌∷◌, none, some, ◌==◌, All}
use tabulark.Error.{ok}
use tabulark.State.{done, state_of, result_of, monad}
use tabulark.Csv.Options.{csv}
use tabulark.Csv.Scan.{new_scanner}
use tabulark.Csv.Options.{validate}
use tabulark.Csv.Estimate.{Sizes}
use tabulark.Maps.{lookup, is_some}
use tabulark.Config.{default_config, clamp}
use tabulark.Runtime.{
  Runtime, ActiveRange, new_runtime, open_delimited, allocate_handle, feed_range, close_source,
  BeginRangeResult, begin_range, plan_decoder,
}
use tabulark.Runtime.Registry.{IsRegistry}
use tabulark.Runtime.Feeding.{Feed, feed_all, decode_all, feed_all-decode_all}
use tabulark.Text.{codes}
use tabulark.Runtime.Steps.{open_source, feed, close, start, call, after, reachable-IsRegistry}
use tabulark.Runtime.Lifecycle.{
  feed_range-closes, asks_more, close_source-ends, close_source-others,
}
use tabulark.Tests.{plain, fresh, scanned, table, decoder, scanning}

abbrev sizes : Sizes
sizes = record { checkpoint = 16; column = 56; name = 24; diagnostic = 48 }

abbrev idle : Runtime plain
idle = record { config = default_config; next_handle = 1; sources = []; ranges = [] }

idle_new : new_runtime plain default_config ≡ ok idle
unfolding new_runtime
idle_new = refl

-- A source is opened, a range of a source that is not there is asked for, and the source is closed.
abbrev called : Runtime plain
called =
    after plain sizes (close 1)
      (after plain sizes (feed 7 0 table true) (after plain sizes (open_source csv) idle))

reachable-IsRegistry_example : IsRegistry plain called
reachable-IsRegistry_example = reachable-IsRegistry plain sizes default_config called (
    call (close 1)
      (after plain sizes (feed 7 0 table true) (after plain sizes (open_source csv) idle))
      (call (feed 7 0 table true) (after plain sizes (open_source csv) idle)
        (call (open_source csv) idle (start idle idle_new))))

abbrev active : ActiveRange plain
active = record { source = 1; decoder = decoder; diagnostic_count = 0 }

-- Two sources, and a range of the first.
abbrev busy : Runtime plain
busy = record {
  config = default_config;
  next_handle = 4;
  sources = (1, scanned) ∷ (2, fresh) ∷ [];
  ranges = (3, active) ∷ [];
}

busy-IsRegistry : IsRegistry plain busy
busy-IsRegistry = record {
  next_le_max = omega arith;
  sources_below = omega arith;
  ranges_below = omega arith;
  owned = (refl, tt);
  sources_le_max = omega arith;
  ranges_le_max = omega arith;
}

-- Two slices of the range.
abbrev slices : List Feed
slices =
    record { offset = 12; bytes = codes "c,3\n"; eof = false }
    ∷ record { offset = 16; bytes = codes "d,4\ne,5\n"; eof = true }
    ∷ []

feed_all-decode_all_example :
    ((feed_all plain 3 slices busy).0 ≡ (decode_all plain slices decoder).0)
    × ([] ++ (feed_all plain 3 slices busy).1 ≡ (decode_all plain slices decoder).1)
feed_all-decode_all_example =
    feed_all-decode_all plain 3 slices active busy busy-IsRegistry refl refl

feed_range-closes_example :
    is_some (lookup 3 (state_of (feed_range plain 3 12 table true busy)).ranges)
    ≡ asks_more plain (result_of (feed_range plain 3 12 table true busy))
feed_range-closes_example = feed_range-closes plain 3 12 table true busy

close_source-ends_example :
    (lookup 1 ((close_source plain 1 busy).0).sources ≡ none)
    × All (λ p. (p.1.source == 1) ≡ false) ((close_source plain 1 busy).0).ranges
close_source-ends_example = close_source-ends plain 1 busy

close_source-others_example :
    (lookup 1 ((close_source plain 2 busy).0).sources ≡ some scanned)
    × (lookup 3 ((close_source plain 2 busy).0).ranges ≡ some active)
close_source-others_example = close_source-others plain 2 3 active busy refl refl

abbrev opened : Runtime plain
opened = record {
  config = default_config;
  next_handle = 5;
  sources =
      (4, record fresh { options = clamp default_config csv }) ∷ (1, scanned) ∷ (2, fresh) ∷ [];
  ranges = (3, active) ∷ [];
}

opened-busy : open_delimited plain csv busy ≡ done 4 opened
unfolding open_delimited allocate_handle new_scanner validate
opened-busy = refl

abbrev request : RangeRequest
request = record { row_start = 3; row_count = 2; column_start = 0; column_count = 2 }

abbrev begun : BeginRangeResult plain
begun = record { range_handle = 4; plan = decoder.plan; batch = none }

-- Two sources without ranges, and a range of the first after that.
abbrev quiet : Runtime plain
quiet = record busy { ranges = [] }

quiet-IsRegistry : IsRegistry plain quiet
quiet-IsRegistry = record {
  next_le_max = omega arith;
  sources_below = omega arith;
  ranges_below = omega arith;
  owned = tt;
  sources_le_max = omega arith;
  ranges_le_max = omega arith;
}

abbrev reading : Runtime plain
reading = record quiet { next_handle = 5; ranges = (4, active) ∷ [] }

reading-begun : begin_range plain 1 request quiet ≡ done begun reading
unfolding scanning begin_range allocate_handle plan_decoder plan_range validate_range
    validate_public cell_count column_end checked_end nearest partition_point range_decoder
    new_decoder immediate_batch monad
reading-begun = refl
