-- ===== src/Runtime/Feeding.antt =====
-- A range that is fed through the registry (runtime.rs) answers as its decoder does.
use mathlib.Core.List.{append_assoc, append-nil}
use tabulark.Base.{
  ℕ, ◌+◌, ◌≡◌, refl, sym, ap, ◌∙◌, Bool, List, [], ◌∷◌, ◌++◌, Option, none, some, arith, length,
  drop, drop-append_length, ==_iff,
}
use tabulark.Text.{Bytes}
use tabulark.Error.{Result, ok, err}
use tabulark.State.{Outcome, done, fail, state_of}
use tabulark.Model.Batch.{TableBatch}
use tabulark.Csv.Core.{CsvCore}
use tabulark.Csv.Options.{CsvDiagnostic}
use tabulark.Csv.Decoder.{RangeDecoder}
use tabulark.Csv.Decoder.Diagnostics.{
  Extends, HasFirst, handle_diagnostic-HasFirst, append_field-HasFirst, finish_field-HasFirst,
  finish_record-HasFirst, build_batch-HasFirst,
}
use tabulark.Csv.Decode.{RangeDecodeStatus, need_more, complete}
use tabulark.Csv.Decode
use tabulark.Csv.Decode.Invariants.{feed_chunk-Keeps}
use tabulark.Maps.{lookup, remove, All-lookup}
use tabulark.Runtime.{Runtime, ActiveRange, feed_range, settle, FeedRangeResult, more, completed}
use tabulark.Runtime.Registry.{IsRegistry, IsOwned, feed_range-IsRegistry}

pub record Feed : Type 0 where
  pub offset : ℕ
  pub bytes : Bytes
  pub eof : Bool

-- What a range answers in the end, `none` while it asks for more, and the diagnostics handed out.
abbrev pub Answer : Type 0
Answer = Option (Result TableBatch) × List CsvDiagnostic

module _ (core : CsvCore) where
  -- A range that is fed through the registry, until it no longer asks for more.
  abbrev after_answer :
      Outcome (Runtime core) (FeedRangeResult core) → (Runtime core → Answer) → Answer
  after_answer (fail e r) go_on = (some (err e), [])
  after_answer (done (completed batch ds) r) go_on = (some (ok batch), ds)
  after_answer (done (more offset ds) r) go_on = let (a, later) = go_on r in (a, ds ++ later)

  abbrev pub feed_all : ℕ → List Feed → Runtime core → Answer
  feed_all range [] r = (none, [])
  feed_all range (f ∷ fs) r =
      after_answer (feed_range core range f.offset f.bytes f.eof r) (feed_all range fs)

  -- A decoder that is fed by itself, and the diagnostics that it has before it fails or at the end.
  abbrev after_status :
      RangeDecoder core
      → Outcome (RangeDecoder core) RangeDecodeStatus
      → (RangeDecoder core → Answer)
      → Answer
  after_status before (fail e d) go_on = (some (err e), before.diagnostics)
  after_status before (done (complete batch) d) go_on = (some (ok batch), d.diagnostics)
  after_status before (done need_more d) go_on = go_on d

  abbrev pub decode_all : List Feed → RangeDecoder core → Answer
  decode_all [] d = (none, d.diagnostics)
  decode_all (f ∷ fs) d =
      after_status d (Decode.feed_chunk core f.offset f.bytes f.eof d) (decode_all fs)

  -- In a registry in order an open range is decoded: the test that its source is open succeeds.
  feed_range-decodes :
      (range offset : ℕ) (bytes : Bytes) (eof : Bool) (a : ActiveRange core) (r : Runtime core)
      → IsRegistry core r
      → lookup range r.ranges ≡ some a
      → feed_range core range offset bytes eof r
        ≡ settle core range a
            (record r { ranges = remove range r.ranges })
            (Decode.feed_chunk core offset bytes eof a.decoder)
  unfolding feed_range
  feed_range-decodes range offset bytes eof a r w e =
      ground (arith, All-lookup (IsOwned core r.sources) range r.ranges a w.owned e)

  feed_chunk-Extends :
      (offset : ℕ) (bytes : Bytes) (eof : Bool) (d : RangeDecoder core)
      → Extends d.diagnostics (state_of (Decode.feed_chunk core offset bytes eof d)).diagnostics
  feed_chunk-Extends offset bytes eof d =
      let ds = d.diagnostics in
      (feed_chunk-Keeps core (HasFirst core ds) (λ s _ _ _ _ h. h)
          (handle_diagnostic-HasFirst core ds) (append_field-HasFirst core ds)
          (finish_field-HasFirst core ds) (finish_record-HasFirst core ds)
          (build_batch-HasFirst core ds) offset bytes eof).keep
        d ([], sym (append-nil ds))

  -- What was handed out and what is new make up all.
  Extends-drop :
      (ds l : List CsvDiagnostic) (n : ℕ) → Extends ds l → n ≡ length ds → ds ++ drop n l ≡ l
  Extends-drop ds l n (later, e) c =
      ap (◌++◌ ds) (
        ap (drop n) e
        ∙ ap (λ k. drop k (ds ++ later)) {x = n} {y = length ds + 0} (omega (arith, c))
        ∙ drop-append_length ds later 0)
      ∙ sym e

  -- An open range of a registry in order that has handed out all the diagnostics of its decoder
  -- answers any sequence of feeds as the decoder by itself would: with the same batch or error, or by
  -- asking for more, and the diagnostics handed out with the answers are, behind those handed out
  -- before, exactly those of the decoder, each of them once. If the decoder fails these are the ones
  -- that it had before the feed that failed.
  pub feed_all-decode_all :
      (range : ℕ) (fs : List Feed) (a : ActiveRange core) (r : Runtime core)
      → IsRegistry core r
      → lookup range r.ranges ≡ some a
      → a.diagnostic_count ≡ length a.decoder.diagnostics
      → ((feed_all range fs r).0 ≡ (decode_all fs a.decoder).0)
        × (a.decoder.diagnostics ++ (feed_all range fs r).1 ≡ (decode_all fs a.decoder).1)
  feed_all-decode_all range [] a r w e c = (refl, append-nil a.decoder.diagnostics)
  feed_all-decode_all range (f ∷ fs) a r w e c = rw decoded (
      go (Decode.feed_chunk core f.offset f.bytes f.eof a.decoder)
        (feed_chunk-Extends f.offset f.bytes f.eof a.decoder)
        (rw decoded at (feed_range-IsRegistry core range f.offset f.bytes f.eof r w))
        (feed_all-decode_all range fs))
    where
      left : Runtime core
      left = record r { ranges = remove range r.ranges }

      decoded :
          feed_range core range f.offset f.bytes f.eof r
          ≡ settle core range a left (Decode.feed_chunk core f.offset f.bytes f.eof a.decoder)
      decoded = feed_range-decodes range f.offset f.bytes f.eof a r w e

      go :
          (o : Outcome (RangeDecoder core) RangeDecodeStatus)
          → Extends a.decoder.diagnostics (state_of o).diagnostics
          → IsRegistry core (state_of (settle core range a left o))
          → ((a' : ActiveRange core) (r' : Runtime core)
              → IsRegistry core r'
              → lookup range r'.ranges ≡ some a'
              → a'.diagnostic_count ≡ length a'.decoder.diagnostics
              → ((feed_all range fs r').0 ≡ (decode_all fs a'.decoder).0)
                × (a'.decoder.diagnostics ++ (feed_all range fs r').1
                    ≡ (decode_all fs a'.decoder).1))
          → ((after_answer (settle core range a left o) (feed_all range fs)).0
              ≡ (after_status a.decoder o (decode_all fs)).0)
            × (a.decoder.diagnostics
                  ++ (after_answer (settle core range a left o) (feed_all range fs)).1
                ≡ (after_status a.decoder o (decode_all fs)).1)
      go (fail failure d) x v rest = (refl, append-nil a.decoder.diagnostics)
      go (done (complete batch) d) x v rest =
          (refl, Extends-drop a.decoder.diagnostics d.diagnostics a.diagnostic_count x c)
      go (done need_more d) x v rest =
          let h =
            rest
              (record { source = a.source; decoder = d; diagnostic_count = length d.diagnostics })
              (state_of (settle core range a left (done need_more d))) v
              (rw ((==_iff range range).1 refl) refl) refl in
          (
            h.0,
            sym (
                  append_assoc a.decoder.diagnostics (drop a.diagnostic_count d.diagnostics)
                    (feed_all range fs (state_of (settle core range a left (done need_more d)))).1)
                ∙ ap
                    (λ l.
                      l
                      ++ (feed_all range fs
                          (state_of (settle core range a left (done need_more d)))).1)
                    (Extends-drop a.decoder.diagnostics d.diagnostics a.diagnostic_count x c)
                ∙ h.1,
          )
