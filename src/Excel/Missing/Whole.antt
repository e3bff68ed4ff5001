-- ===== src/Excel/Missing/Whole.antt =====
-- A range of which nothing is missing is handed out in one piece (range.rs).
use tabulark.Base.{
  ℕ, zero, suc, ◌+◌, ◌-◌, ◌≤◌, ◌<◌, ◌≡◌, inl, inr, refl, sym, ap, ◌∙◌, arith, [], ◌∷◌, Option, none,
  some, All, leb, length, Bool-cases, usize_max, take, drop, length-take, length-drop, get_elem?,
  get_elem?-ge, not-leb→lt, leb→le,
}
use tabulark.Text.{Bytes}
use tabulark.Error.{ok}
use tabulark.Model.Strings.{slice}
use tabulark.Excel.Segments.{last_at_most}
use tabulark.Excel.Segments.Placed.{byte_at, byte_at-last, at_segment}
use tabulark.Excel.Host.{HostRange, end}
use tabulark.Excel.Ranges.{IndexedRanges}
use tabulark.Excel.Ranges.Order.{IsIndexed, Found, Found-last_at_most}
use tabulark.Excel.Missing.{first_missing, indexed_bytes}
use tabulark.Excel.Missing.Gaps.{byte_at-gap, byte_at-in}
use tabulark.Excel.Missing.Exact.{IsRead, first_missing-exact}

pub get_elem?-drop : (k i : ℕ) (l : Bytes) → get_elem? (drop k l) i ≡ get_elem? l (k + i)
get_elem?-drop zero i l = ap (get_elem? l) {x = i} {y = 0 + i} (omega arith)
get_elem?-drop (suc k) i [] = refl
get_elem?-drop (suc k) i (b ∷ l) =
    get_elem?-drop k i l ∙ ap (get_elem? (b ∷ l)) {x = suc (k + i)} {y = suc k + i} (omega arith)

pub get_elem?-take : (n i : ℕ) (l : Bytes) → i < n → get_elem? (take n l) i ≡ get_elem? l i
get_elem?-take zero i l h = absurd (omega arith)
get_elem?-take (suc n) i [] h = refl
get_elem?-take (suc n) zero (b ∷ l) h = refl
get_elem?-take (suc n) (suc i) (b ∷ l) h = get_elem?-take n i l (omega arith)

-- What a range reads as.
pub record IsPiece (r : IndexedRanges) (range : HostRange) (bytes : Bytes) : Type 0 where
  pub count : length bytes ≡ range.length
  pub places : (i : ℕ) → i < range.length → get_elem? bytes i ≡ byte_at r.ranges (range.offset + i)

module _ (r : IndexedRanges) (range : HostRange) (v : IsIndexed r) where
  in_segment :
      (s : ℕ) (b : Bytes)
      → last_at_most range.offset r.ranges ≡ some (s, b)
      → s ≤ range.offset
      → length b ≤ usize_max
      → end range ≤ s + length b
      → (bytes : Bytes) × (indexed_bytes r range ≡ some bytes) × IsPiece r range bytes
  unfolding indexed_bytes
  in_segment s b k le u h = (
    slice (range.offset - s) (range.offset - s + range.length) b,
    rw k ground arith,
    record {
      count = omega (
        arith,
        length-take (range.offset - s + range.length - (range.offset - s))
            (drop (range.offset - s) b),
        length-drop (range.offset - s) b,
      );
      places = λ i lt.
          get_elem?-take (range.offset - s + range.length - (range.offset - s)) i
            (drop (range.offset - s) b) (omega arith)
          ∙ get_elem?-drop (range.offset - s) i b
          ∙ ap (get_elem? b) {x = range.offset - s + i} {y = range.offset + i - s} (omega arith)
          ∙ sym (
              byte_at-in 0 range.offset r.ranges s b (range.offset + i) v.placed k (omega arith)
                (omega arith));
    },
  )

  -- A segment that holds the first place of a range that was read goes on to its end.
  unread :
      (s : ℕ) (b : Bytes)
      → last_at_most range.offset r.ranges ≡ some (s, b)
      → 0 < range.length
      → IsRead r range.offset (end range)
      → s + length b < end range
      → ⊥
  unread s b k n read short = elim (Bool-cases (leb range.offset (s + length b))) [
    | inl e ↦
        read (s + length b) (leb→le range.offset (s + length b) e) short
          (byte_at-gap 0 range.offset r.ranges s b v.placed k)
    | inr e ↦
        let past = not-leb→lt range.offset (s + length b) e in
        read range.offset (omega arith) (omega arith) (
          byte_at-last range.offset 0 r.ranges v.placed
          ∙ ap (λ l. at_segment l range.offset) k
          ∙ get_elem?-ge b (range.offset - s) (omega arith))
  ]

  read-IsPiece :
      All (λ q. length q.1 ≤ usize_max) r.ranges
      → 0 < range.length
      → IsRead r range.offset (end range)
      → (bytes : Bytes) × (indexed_bytes r range ≡ some bytes) × IsPiece r range bytes
  read-IsPiece u n read =
      go (last_at_most range.offset r.ranges) refl
        (Found-last_at_most (λ q. length q.1 ≤ usize_max) range.offset r.ranges u)
    where
      go :
          (l : Option (ℕ × Bytes))
          → last_at_most range.offset r.ranges ≡ l
          → Found (λ q. (length q.1 ≤ usize_max) × (q.0 ≤ range.offset)) l
          → (bytes : Bytes) × (indexed_bytes r range ≡ some bytes) × IsPiece r range bytes
      go none k f = absurd (
          read range.offset (omega arith) (omega arith)
            (byte_at-last range.offset 0 r.ranges v.placed ∙ ap (λ l. at_segment l range.offset) k))
      go (some (s, b)) k f = elim (Bool-cases (leb (end range) (s + length b))) [
        | inl e ↦ in_segment s b k f.1 f.0 (leb→le (end range) (s + length b) e)
        | inr e ↦ absurd (unread s b k n read (not-leb→lt (end range) (s + length b) e))
      ]

-- If nothing of a range of the source is missing, its bytes are handed out in one piece, each of
-- them as it was read, where every segment is addressable by a `usize`.
pub indexed_bytes-IsPiece :
    (r : IndexedRanges) (range : HostRange)
    → IsIndexed r
    → All (λ q. length q.1 ≤ usize_max) r.ranges
    → end range ≤ r.source_length
    → 0 < range.length
    → first_missing r range ≡ ok none
    → (bytes : Bytes) × (indexed_bytes r range ≡ some bytes) × IsPiece r range bytes
indexed_bytes-IsPiece r range v u within n h = elim (first_missing-exact r range v within) [
  | inl a ↦ read-IsPiece r range v u n a.1
  | inr a ↦ let q = sym h ∙ a.1 in cc
]
