-- ===== src/Excel/Reader/Exact.antt =====
-- What `SparseReader` reads and where it seeks to (range.rs).
use tabulark.Base.{
  ℕ, ◌+◌, ◌-◌, ◌≤◌, ◌<◌, ◌≡◌, ◌⊎◌, inl, inr, refl, sym, ap, ◌∙◌, arith, true, false, [], Option,
  none, some, leb, ltb, ◌==◌, length, min, Bool-cases, usize_max, drop, length-take, length-drop,
  get_elem?, get_elem?-ge, ltb→lt, le→not-ltb, ==_iff,
}
use tabulark.Text.{Bytes}
use tabulark.Model.Strings.{slice}
use tabulark.Excel.Segments.{last_at_most}
use tabulark.Excel.Segments.Placed.{byte_at, byte_at-last, at_segment}
use tabulark.Excel.Host.{HostRange, end, new_host_range}
use tabulark.Excel.Ranges.Order.{IsIndexed, Found, Found-last_at_most}
use tabulark.Excel.Missing.Gaps.{byte_at-in}
use tabulark.Excel.Missing.Whole.{get_elem?-take, get_elem?-drop}
use tabulark.Excel.Reader.{
  SparseReader, IoResult, io_ok, io_err, would_block, read, read_at, copied, blocked,
}

-- Bytes of the source from the position on, none only for an empty target or at the end.
pub record IsCopy (s : SparseReader) (wanted : ℕ) (bytes : Bytes) : Type 0 where
  pub count : length bytes ≤ wanted
  pub stops : length bytes ≡ 0 → (wanted ≡ 0) ⊎ (s.position ≡ s.indexed.source_length)
  pub places :
      (i : ℕ) → i < length bytes → get_elem? bytes i ≡ byte_at s.indexed.ranges (s.position + i)

-- A window of the source that begins at the position, where nothing was read.
pub record IsWindow (s : SparseReader) (range : HostRange) : Type 0 where
  pub begins : range.offset ≡ s.position
  pub unread : byte_at s.indexed.ranges s.position ≡ none
  pub size : (0 < range.length) × (range.length ≤ s.chunk_bytes)
  pub within : end range ≤ s.indexed.source_length

abbrev pub behind : SparseReader → ℕ → SparseReader
behind s n = record s { position = s.position + n }

-- What a read may answer: bytes, or a window to read first.
abbrev pub Answers : SparseReader → ℕ → IoResult (Bytes × SparseReader) → Type 0
Answers s wanted a =
    ((bytes : Bytes) × (a ≡ io_ok (bytes, behind s (length bytes))) × IsCopy s wanted bytes)
    ⊎ ((range : HostRange) × (a ≡ io_err (would_block range)) × IsWindow s range)

module _ (s : SparseReader) (v : IsIndexed s.indexed)
    (u : s.indexed.source_length ≤ usize_max) where
  blocked-IsWindow :
      s.position < s.indexed.source_length
      → 0 < s.chunk_bytes
      → byte_at s.indexed.ranges s.position ≡ none
      → (range : HostRange) × (blocked s ≡ io_err (would_block range)) × IsWindow s range
  unfolding blocked new_host_range
  blocked-IsWindow inside n h = (
    record {
      offset = s.position;
      length = min s.chunk_bytes (s.indexed.source_length - s.position);
    },
    ground (arith, v.addressable),
    record { begins = refl; unread = h; size = (omega arith, omega arith); within = omega arith },
  )

  copied-IsCopy :
      (wanted t : ℕ) (b : Bytes)
      → 0 < wanted
      → s.position < s.indexed.source_length
      → last_at_most s.position s.indexed.ranges ≡ some (t, b)
      → t ≤ s.position
      → s.position < t + length b
      → t + length b ≤ s.indexed.source_length
      → (bytes : Bytes) × (copied s wanted b (s.position - t)
          ≡ io_ok (bytes, behind s (length bytes)))
        × IsCopy s wanted bytes
  unfolding copied
  copied-IsCopy wanted t b n inside k le lt w = (
    piece,
    rw size ground (arith, v.addressable),
    record {
      count = omega (arith, size);
      stops = λ e. absurd (omega (arith, size, e));
      places = λ i h.
          get_elem?-take (s.position - t + count - (s.position - t)) i (drop (s.position - t) b)
            (omega (arith, size, h))
          ∙ get_elem?-drop (s.position - t) i b
          ∙ ap (get_elem? b) {x = s.position - t + i} {y = s.position + i - t} (omega arith)
          ∙ sym (
              byte_at-in 0 s.position s.indexed.ranges t b (s.position + i) v.placed k (omega arith)
                (omega (arith, size, h)));
    },
  )
    where
      count : ℕ
      count = min wanted (length b - (s.position - t))

      piece : Bytes
      piece = slice (s.position - t) (s.position - t + count) b

      size : length piece ≡ count
      size = omega (
        arith,
        length-take (s.position - t + count - (s.position - t)) (drop (s.position - t) b),
        length-drop (s.position - t) b,
      )

  read_at-Answers :
      (wanted : ℕ) (l : Option (ℕ × Bytes))
      → 0 < wanted
      → 0 < s.chunk_bytes
      → s.position < s.indexed.source_length
      → last_at_most s.position s.indexed.ranges ≡ l
      → Found (λ q. (q.0 + length q.1 ≤ s.indexed.source_length) × (q.0 ≤ s.position)) l
      → Answers s wanted (read_at l s wanted)
  unfolding read_at
  read_at-Answers wanted none n c inside k f = inr (
      blocked-IsWindow inside c
        (byte_at-last s.position 0 s.indexed.ranges v.placed ∙ ap (λ l. at_segment l s.position) k))
  read_at-Answers wanted (some (t, b)) n c inside k f =
      rw fits (elim (Bool-cases (ltb (s.position - t) (length b))) [
        | inl e ↦ rw e (
            inl (
              copied-IsCopy wanted t b n inside k f.1
                (omega (arith, ltb→lt (s.position - t) (length b) e, f.1)) f.0))
        | inr e ↦ rw e (
            inr (
              blocked-IsWindow inside c (
                byte_at-last s.position 0 s.indexed.ranges v.placed
                ∙ ap (λ l. at_segment l s.position) k
                ∙ get_elem?-ge b (s.position - t) (ground arith))))
      ])
    where
      fits : leb (s.position - t) usize_max ≡ true
      fits = ground arith

nothing :
    (s : SparseReader) (wanted : ℕ)
    → (wanted ≡ 0) ⊎ (s.position ≡ s.indexed.source_length)
    → Answers s wanted (io_ok ([], s))
nothing s wanted h = inl (
  [],
  ap (λ n. io_ok ([], record s { position = n })) {x = s.position} {y = s.position + 0}
      (omega arith),
  record { count = omega arith; stops = λ e. h; places = λ i k. absurd (omega arith) },
)

-- A read at a position in the source always answers, and is one of two things: bytes of the source
-- from the position on, as many as the target takes at most, with the reader behind them, and none
-- only for an empty target or at the end of the source; or the refusal that names a window of the
-- source from the position on, whose first place was not read, for the host to read. The source is
-- addressable by a `usize`.
pub read-Answers :
    (s : SparseReader) (wanted : ℕ)
    → IsIndexed s.indexed
    → s.indexed.source_length ≤ usize_max
    → 0 < s.chunk_bytes
    → s.position ≤ s.indexed.source_length
    → Answers s wanted (read s wanted)
unfolding read
read-Answers s wanted v u c within =
    go (Bool-cases (wanted == 0)) (Bool-cases (s.position == s.indexed.source_length))
  where
    go :
        ((wanted == 0) ≡ true) ⊎ ((wanted == 0) ≡ false)
        → ((s.position == s.indexed.source_length) ≡ true)
          ⊎ ((s.position == s.indexed.source_length) ≡ false)
        → Answers s wanted (read s wanted)
    go (inl e) f = rw e (nothing s wanted (inl ((==_iff wanted 0).0 e)))
    go (inr e) (inl f) =
        rw (e, f) (nothing s wanted (inr ((==_iff s.position s.indexed.source_length).0 f)))
    go (inr e) (inr f) =
        rw (e, f, le→not-ltb s.indexed.source_length s.position within)
          (read_at-Answers s v u wanted (last_at_most s.position s.indexed.ranges) (ground arith) c
            (ground arith) refl
            (Found-last_at_most (λ q. q.0 + length q.1 ≤ s.indexed.source_length) s.position
              s.indexed.ranges v.within))
