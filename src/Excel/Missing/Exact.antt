-- ===== src/Excel/Missing/Exact.antt =====
-- What `first_missing` (range.rs) answers: the first part of a range that was not read.
use tabulark.Base.{
  ℕ, suc, ◌+◌, ◌-◌, ◌≤◌, ◌<◌, ◌≡◌, ◌≢◌, ◌⊎◌, inl, inr, refl, sym, ap, subst, ◌∙◌, arith, true,
  false, Option, none, some, ltb, leb, length, Bool-cases, min, le→not-ltb, lt→ltb, ltb→lt,
}
use mathlib.Core.Option.{some-injective}
use tabulark.Text.{Bytes}
use tabulark.Error.{ok}
use tabulark.Excel.Segments.{last_at_most, first_at_least}
use tabulark.Excel.Segments.Placed.{byte_at, byte_at-last, at_segment}
use tabulark.Excel.Host.{HostRange, end, new_host_range, segment_end}
use tabulark.Excel.Ranges.{IndexedRanges}
use tabulark.Excel.Ranges.Order.{IsIndexed, Found, Found-last_at_most}
use tabulark.Excel.Missing.{first_missing, missing_from, gap_at, covered_end}
use tabulark.Excel.Missing.Gaps.{
  byte_at-gap, byte_at-within, unread-next, first_at_least-unread, get_elem?-ne, get_elem?-some_lt,
}

-- Every place from `from` up to `to` was read.
abbrev pub IsRead : IndexedRanges → ℕ → ℕ → Type 0
IsRead r from to = (x : ℕ) → from ≤ x → x < to → byte_at r.ranges x ≢ none

-- The first part of a range of which nothing was read.
pub record IsGap (r : IndexedRanges) (range gap : HostRange) : Type 0 where
  pub inside : (range.offset ≤ gap.offset) × (0 < gap.length) × (end gap ≤ end range)
  pub unread : (x : ℕ) → gap.offset ≤ x → x < end gap → byte_at r.ranges x ≡ none
  pub read_before : IsRead r range.offset gap.offset

module _ (r : IndexedRanges) (range : HostRange) (v : IsIndexed r)
    (within : end range ≤ r.source_length) where
  gap_at-IsGap :
      (p : ℕ)
      → range.offset ≤ p
      → p < end range
      → byte_at r.ranges p ≡ none
      → IsRead r range.offset p
      → (g : HostRange) × (gap_at r range p ≡ ok (some g)) × IsGap r range g
  unfolding gap_at new_host_range
  gap_at-IsGap p from to h before = go (first_at_least p r.ranges) refl
    where
      go :
          (o : Option (ℕ × Bytes))
          → first_at_least p r.ranges ≡ o
          → (g : HostRange) × (gap_at r range p ≡ ok (some g)) × IsGap r range g
      go none e = (
        record { offset = p; length = end range - p },
        rw e ground (arith, v.addressable),
        record {
          inside = (from, omega arith, omega arith);
          unread = λ x le lt.
              unread-next 0 p x r.ranges v.placed h le (λ t c k. let q = sym e ∙ k in cc);
          read_before = before;
        },
      )
      go (some (t, c)) e =
          let ahead = first_at_least-unread 0 p r.ranges t c v.placed h e in
          (
            record { offset = p; length = min t (end range) - p },
            rw e ground (arith, v.addressable, ahead),
            record {
              inside = (from, omega (arith, ahead), omega (arith, ahead));
              unread = λ x le lt. unread-next 0 p x r.ranges v.placed h le (λ u d k.
                  let q = ap (λ z. z.0) (some-injective (t, c) (u, d) (sym e ∙ k)) in
                  omega (arith, q, ahead));
              read_before = before;
            },
          )

  covered_end-exact :
      (l : Option (ℕ × Bytes)) (p : ℕ)
      → Found (λ q. (q.0 + length q.1 ≤ r.source_length) × (q.0 ≤ p)) l
      → at_segment l p ≡ none
      → covered_end l p ≡ ok none
  unfolding covered_end segment_end
  covered_end-exact none p f h = refl
  covered_end-exact (some (s, b)) p f h = ground (arith, v.addressable, f, get_elem?-ne b (p - s))

  covered_end-some :
      (s : ℕ) (b : Bytes) (p : ℕ)
      → s + length b ≤ r.source_length
      → p < s + length b
      → covered_end (some (s, b)) p ≡ ok (some (s + length b))
  unfolding covered_end segment_end
  covered_end-some s b p f h = ground (arith, v.addressable)

  -- A place that is not read is where the gap begins.
  missing-IsGap :
      (rounds p : ℕ)
      → range.offset ≤ p
      → p < end range
      → byte_at r.ranges p ≡ none
      → IsRead r range.offset p
      → (g : HostRange) × (missing_from (suc rounds) r range p ≡ ok (some g)) × IsGap r range g
  unfolding missing_from
  missing-IsGap rounds p from to h before =
      let (g, e, k) = gap_at-IsGap p from to h before in
      (
        g,
        rw
            (
              lt→ltb p (end range) to,
              covered_end-exact (last_at_most p r.ranges) p
                  (Found-last_at_most (λ q. q.0 + length q.1 ≤ r.source_length) p r.ranges v.within)
                  (sym (byte_at-last p 0 r.ranges v.placed) ∙ h),
            )
            e,
        k,
      )

  missing-none : (rounds p : ℕ) → end range ≤ p → missing_from (suc rounds) r range p ≡ ok none
  unfolding missing_from
  missing-none rounds p h = rw (le→not-ltb p (end range) h) refl

  -- Up to the end of the segment that holds a place, everything was read.
  IsRead-segment :
      (p : ℕ) (s : ℕ) (b : Bytes)
      → last_at_most p r.ranges ≡ some (s, b)
      → IsRead r p (s + length b)
  IsRead-segment p s b e x le lt = byte_at-within 0 p r.ranges s b x v.placed e le lt

  missing-step :
      (rounds p s : ℕ) (b : Bytes)
      → p < end range
      → last_at_most p r.ranges ≡ some (s, b)
      → s + length b ≤ r.source_length
      → p < s + length b
      → missing_from (suc (suc rounds)) r range p
        ≡ missing_from (suc rounds) r range (min (s + length b) (end range))
  unfolding missing_from
  missing-step rounds p s b to k f inside =
      rw (lt→ltb p (end range) to, k, covered_end-some s b p f inside) refl

  Answer : ℕ → ℕ → Type 0
  Answer rounds p =
      ((missing_from rounds r range p ≡ ok none) × IsRead r range.offset (end range))
      ⊎ ((g : HostRange) × (missing_from rounds r range p ≡ ok (some g)) × IsGap r range g)

  -- A place in a segment: the answer is that from the end of the segment.
  missing-covered :
      (rounds p s : ℕ) (b : Bytes)
      → range.offset ≤ p
      → p < end range
      → IsRead r range.offset p
      → last_at_most p r.ranges ≡ some (s, b)
      → s + length b ≤ r.source_length
      → p < s + length b
      → Answer (suc (suc rounds)) p
  unfolding Answer
  missing-covered rounds p s b from to before k f inside =
      rw (missing-step rounds p s b to k f inside)
        (go (Bool-cases (leb (end range) (s + length b))))
    where
      read : IsRead r range.offset (s + length b)
      read x le lt = elim (Bool-cases (ltb x p)) [
        | inl e ↦ before x le (ltb→lt x p e)
        | inr e ↦ IsRead-segment p s b k x (ground arith) lt
      ]

      go :
          (leb (end range) (s + length b) ≡ true) ⊎ (leb (end range) (s + length b) ≡ false)
          → Answer (suc rounds) (min (s + length b) (end range))
      go (inl e) = inl (
        missing-none rounds (min (s + length b) (end range)) (ground arith),
        λ x le lt. read x le (ground arith),
      )
      go (inr e) =
          let same : s + length b ≡ min (s + length b) (end range) = ground arith in
          inr (
            missing-IsGap rounds (min (s + length b) (end range)) (omega (arith, same))
              (ground arith)
              (subst (λ n. byte_at r.ranges n ≡ none) same
                (byte_at-gap 0 p r.ranges s b v.placed k))
              (λ x le lt. read x le (omega (arith, same))))

  missing-exact :
      (rounds p : ℕ)
      → range.offset ≤ p
      → p ≤ end range
      → IsRead r range.offset p
      → Answer (suc (suc rounds)) p
  unfolding Answer
  missing-exact rounds p from to before =
      go (Bool-cases (ltb p (end range))) (byte_at r.ranges p) refl (last_at_most p r.ranges) refl
        (Found-last_at_most (λ q. q.0 + length q.1 ≤ r.source_length) p r.ranges v.within)
    where
      go :
          (ltb p (end range) ≡ true) ⊎ (ltb p (end range) ≡ false)
          → (y : Option ℕ) → byte_at r.ranges p ≡ y
          → (l : Option (ℕ × Bytes)) → last_at_most p r.ranges ≡ l
          → Found (λ q. (q.0 + length q.1 ≤ r.source_length) × (q.0 ≤ p)) l
          → Answer (suc (suc rounds)) p
      go (inr f) y e l k n =
          inl (missing-none (suc rounds) p (ground arith), λ x a b. before x a (ground arith))
      go (inl f) none e l k n =
          inr (missing-IsGap (suc rounds) p from (ltb→lt p (end range) f) e before)
      go (inl f) (some y) e none k n =
          let q = sym e ∙ byte_at-last p 0 r.ranges v.placed ∙ ap (λ l. at_segment l p) k in cc
      go (inl f) (some y) e (some (s, b)) k n =
          let q = sym e ∙ byte_at-last p 0 r.ranges v.placed ∙ ap (λ l. at_segment l p) k in
          missing-covered rounds p s b from (ltb→lt p (end range) f) before k n.0
            (omega (arith, n.1, get_elem?-some_lt b (p - s) y (sym q)))

-- For a range of the source, the answer is either that nothing is missing, and then every place of
-- the range was read, or the first gap: a part of the range of which nothing was read, behind places
-- that all were. The loop always ends with one of them.
pub first_missing-exact :
    (r : IndexedRanges) (range : HostRange)
    → IsIndexed r
    → end range ≤ r.source_length
    → ((first_missing r range ≡ ok none) × IsRead r range.offset (end range))
      ⊎ ((g : HostRange) × (first_missing r range ≡ ok (some g)) × IsGap r range g)
unfolding first_missing Answer
first_missing-exact r range v within = rw (le→not-ltb r.source_length (end range) within) (
    missing-exact r range v within range.length range.offset (omega arith) (omega arith)
      (λ x a b. absurd (omega arith)))
