-- ===== src/Csv/Memory/Chunks.antt =====
-- The loops of a memory source (csv.rs) feed it chunk by chunk, up to its end.
use tabulark.Base.{
  ℕ, zero, suc, ◌+◌, ◌≤◌, ◌<◌, ◌≡◌, ◌⊎◌, inl, inr, refl, ap, ◌∙◌, true, false, List, [], ◌∷◌, arith,
  ltb, ltb→lt, ◌==◌, ==_iff, Bool-cases, length, drop, usize_max,
}
use tabulark.Text.{Bytes}
use tabulark.Error.{Result, ok, err, ◌>>=◌}
use tabulark.State.{Outcome, done, fail}
use tabulark.Model.Strings.{slice}
use tabulark.Model.Batch.{TableBatch}
use tabulark.Csv.Core.{CsvCore}
use tabulark.Csv.Scanner.{CsvScanner}
use tabulark.Csv.Scan
use tabulark.Csv.Decoder.{RangeDecoder}
use tabulark.Csv.Decode.{RangeDecodeStatus, need_more, complete}
use tabulark.Csv.Decode
use tabulark.Csv.Decode.Eof.{feed_chunk-ends}
use tabulark.Csv.Memory.{
  MemorySource, chunk_end, read_from, next_read, only_complete, scan_from, scanned,
}
use tabulark.Csv.Memory.Cut.{IsCut, is_empty, slice-IsCut, nothing-IsCut, length-slice, last-slice}

module _ (core : CsvCore) where
  -- The chunks fed to a scanner one after the other, the last one as the end of the source.
  abbrev pub scan_all : ℕ → List Bytes → CsvScanner core → Result (CsvScanner core)
  scan_all offset [] s = ok s
  scan_all offset (c ∷ cs) s = scanned core (Scan.feed_chunk core offset c (is_empty cs) s) >>= λ t.
      scan_all (offset + length c) cs t

  -- The same for a decoder, until it answers with a batch or an error.
  abbrev pub read_all : ℕ → Bytes → List Bytes → RangeDecoder core → Result TableBatch
  read_all offset c [] d = only_complete core (Decode.feed_chunk core offset c true d)
  read_all offset c (c' ∷ cs) d =
      next_read core (Decode.feed_chunk core offset c false d) (read_all (offset + length c) c' cs)

  chunk_end-after :
      (offset chunk_size : ℕ) (bytes : Bytes)
      → 0 < chunk_size
      → offset < length bytes
      → length bytes ≤ usize_max
      → (offset < chunk_end core offset chunk_size bytes)
        × (chunk_end core offset chunk_size bytes ≤ length bytes)
        × (chunk_end core offset chunk_size bytes ≤ offset + chunk_size)
  chunk_end-after offset chunk_size bytes pos lt le = ground arith

  bind-same :
      (r : Result (CsvScanner core)) (x y : CsvScanner core → Result (CsvScanner core))
      → ((s : CsvScanner core) → x s ≡ y s)
      → r >>= x ≡ r >>= y
  bind-same (ok s) x y h = h s
  bind-same (err e) x y h = refl

  scan_from-ended :
      (fuel offset size : ℕ) (bytes : Bytes) (s : CsvScanner core)
      → ltb offset (length bytes) ≡ false
      → scan_from core (suc fuel) offset size bytes s ≡ ok s
  unfolding scan_from
  scan_from-ended fuel offset size bytes s e = rw (scan_from, e) refl

  scan_from-next :
      (fuel offset size : ℕ) (bytes : Bytes) (s : CsvScanner core)
      → ltb offset (length bytes) ≡ true
      → scan_from core (suc fuel) offset size bytes s ≡ (
          scanned core (
            Scan.feed_chunk core offset
              (slice offset (chunk_end core offset size bytes) bytes)
              (chunk_end core offset size bytes == length bytes)
              s)
          >>= λ t. scan_from core fuel (chunk_end core offset size bytes) size bytes t)
  unfolding scan_from
  scan_from-next fuel offset size bytes s e = rw (scan_from, e) refl

  Scanned : ℕ → ℕ → ℕ → Bytes → Type 0
  Scanned fuel offset size bytes =
      (chunks : List Bytes) × IsCut size (drop offset bytes) chunks
      × ((s : CsvScanner core) → scan_from core fuel offset size bytes s ≡ scan_all offset chunks s)

  scan_from-Scanned :
      (fuel offset size : ℕ) (bytes : Bytes)
      → 0 < size
      → length bytes ≤ usize_max
      → length bytes ≤ offset + fuel
      → Scanned fuel offset size bytes
  unfolding Scanned scan_from
  scan_from-Scanned zero offset size bytes pos w h =
      ([], nothing-IsCut size offset bytes (omega arith), λ s. refl)
  scan_from-Scanned (suc fuel) offset size bytes pos w h =
      go (Bool-cases (ltb offset (length bytes)))
        (scan_from-Scanned fuel (chunk_end core offset size bytes) size bytes pos w)
    where
      next : ℕ
      next = chunk_end core offset size bytes

      go :
          (ltb offset (length bytes) ≡ true) ⊎ (ltb offset (length bytes) ≡ false)
          → (length bytes ≤ next + fuel → Scanned fuel next size bytes)
          → Scanned (suc fuel) offset size bytes
      go (inr e) rest = (
        [],
        nothing-IsCut size offset bytes (ground arith),
        λ s. scan_from-ended fuel offset size bytes s e,
      )
      go (inl e) rest =
          let lt = ltb→lt offset (length bytes) e in
          let after = chunk_end-after offset size bytes pos lt w in
          let (chunks, cut, same) = rest (omega (arith, after)) in
          (
            slice offset next bytes ∷ chunks,
            slice-IsCut size offset next bytes chunks after.0 after.2 after.1 cut,
            λ s.
                scan_from-next fuel offset size bytes s e
                ∙ rw (last-slice size next bytes chunks after.1 cut) (
                    bind-same _ _ _ λ t.
                      same t
                      ∙ ap (λ n. scan_all n chunks t) {x = next}
                          {y = offset + length (slice offset next bytes)}
                          (omega (
                            arith,
                            length-slice offset next bytes (omega (arith, after)) after.1,
                            after,
                          ))),
          )

  -- The scan of a memory source, with as many rounds as it has bytes left, comes to its end: it is
  -- the scan of chunks that make up the rest of the source, none of them empty or larger than the
  -- chunk size, fed once each and in order with the last one as the end of the source, up to the
  -- first error.
  pub scan_from-chunks :
      (fuel offset size : ℕ) (bytes : Bytes) (s : CsvScanner core)
      → 0 < size
      → length bytes ≤ usize_max
      → length bytes ≤ offset + fuel
      → (chunks : List Bytes) × IsCut size (drop offset bytes) chunks
        × (scan_from core fuel offset size bytes s ≡ scan_all offset chunks s)
  unfolding Scanned
  scan_from-chunks fuel offset size bytes s pos w h =
      let (chunks, cut, same) = scan_from-Scanned fuel offset size bytes pos w h in
      (chunks, cut, same s)

  -- What the loop makes of an answer to the last chunk, which never asks for more.
  last_read :
      (offset : ℕ) (bytes : Bytes) (d : RangeDecoder core)
      (go_on : RangeDecoder core → Result TableBatch)
      → next_read core (Decode.feed_chunk core offset bytes true d) go_on
        ≡ only_complete core (Decode.feed_chunk core offset bytes true d)
  last_read offset bytes d go_on = go (Decode.feed_chunk core offset bytes true d) refl
    where
      go :
          (o : Outcome (RangeDecoder core) RangeDecodeStatus)
          → Decode.feed_chunk core offset bytes true d ≡ o
          → next_read core o go_on ≡ only_complete core o
      go (fail e d') h = refl
      go (done (complete batch) d') h = refl
      go (done need_more d') h = absurd (feed_chunk-ends core offset bytes d d' h)

  next-same :
      (o : Outcome (RangeDecoder core) RangeDecodeStatus)
      (x y : RangeDecoder core → Result TableBatch)
      → ((d : RangeDecoder core) → x d ≡ y d)
      → next_read core o x ≡ next_read core o y
  next-same (fail e d) x y h = refl
  next-same (done (complete batch) d) x y h = refl
  next-same (done need_more d) x y h = h d

  read_from-next :
      (fuel offset : ℕ) (m : MemorySource core) (d : RangeDecoder core)
      → read_from core (suc fuel) offset m d
        ≡ next_read core
            (Decode.feed_chunk core offset
              (slice offset (chunk_end core offset m.chunk_size m.bytes) m.bytes)
              (chunk_end core offset m.chunk_size m.bytes == length m.bytes)
              d)
            (λ d'. read_from core fuel (chunk_end core offset m.chunk_size m.bytes) m d')
  unfolding read_from
  read_from-next fuel offset m d = refl

  Reads : ℕ → ℕ → MemorySource core → Type 0
  Reads fuel offset m =
      (c : Bytes) × (cs : List Bytes) × IsCut m.chunk_size (drop offset m.bytes) (c ∷ cs)
      × ((d : RangeDecoder core) → read_from core fuel offset m d ≡ read_all offset c cs d)

  read_from-Reads :
      (fuel offset : ℕ) (m : MemorySource core)
      → 0 < m.chunk_size
      → length m.bytes ≤ usize_max
      → offset < length m.bytes
      → length m.bytes ≤ offset + fuel
      → Reads fuel offset m
  unfolding Reads
  read_from-Reads zero offset m pos w lt h = absurd (omega (arith, lt, h))
  read_from-Reads (suc fuel) offset m pos w lt h =
      go (Bool-cases (next == length m.bytes)) (read_from-Reads fuel next m pos w)
    where
      next : ℕ
      next = chunk_end core offset m.chunk_size m.bytes

      piece : Bytes
      piece = slice offset next m.bytes

      after : (offset < next) × (next ≤ length m.bytes) × (next ≤ offset + m.chunk_size)
      after = chunk_end-after offset m.chunk_size m.bytes pos lt w

      go :
          ((next == length m.bytes) ≡ true) ⊎ ((next == length m.bytes) ≡ false)
          → (next < length m.bytes → length m.bytes ≤ next + fuel → Reads fuel next m)
          → Reads (suc fuel) offset m
      go (inl e) rest = (
        piece,
        [],
        slice-IsCut m.chunk_size offset next m.bytes [] after.0 after.2 after.1 (
            nothing-IsCut m.chunk_size next m.bytes
              (omega (arith, (==_iff next (length m.bytes)).0 e))),
        λ d.
            read_from-next fuel offset m d
            ∙ rw e (last_read offset piece d (read_from core fuel next m)),
      )
      go (inr e) rest =
          let (c, cs, cut, same) =
            rest (ground (arith, after, ==_iff next (length m.bytes))) (omega (arith, after, h)) in
          (
            piece,
            c ∷ cs,
            slice-IsCut m.chunk_size offset next m.bytes (c ∷ cs) after.0 after.2 after.1 cut,
            λ d.
                read_from-next fuel offset m d
                ∙ rw e (
                    next-same (Decode.feed_chunk core offset piece false d) _ _ λ d'.
                      same d'
                      ∙ ap (λ n. read_all n c cs d') {x = next} {y = offset + length piece}
                          (omega (
                            arith,
                            length-slice offset next m.bytes (omega (arith, after)) after.1,
                            after,
                          ))),
          )

  -- A read from memory, with as many rounds as there are bytes left of the source, comes to its end:
  -- the answer is that of the decoder fed with chunks that make up the rest of the source, none of
  -- them empty or larger than the chunk size, once each and in order with the last one as the end of
  -- the source, up to the first batch or error.
  pub read_from-chunks :
      (fuel offset : ℕ) (m : MemorySource core) (d : RangeDecoder core)
      → 0 < m.chunk_size
      → length m.bytes ≤ usize_max
      → offset < length m.bytes
      → length m.bytes ≤ offset + fuel
      → (c : Bytes) × (cs : List Bytes) × IsCut m.chunk_size (drop offset m.bytes) (c ∷ cs)
        × (read_from core fuel offset m d ≡ read_all offset c cs d)
  unfolding Reads
  read_from-chunks fuel offset m d pos w lt h =
      let (c, cs, cut, same) = read_from-Reads fuel offset m pos w lt h in (c, cs, cut, same d)
