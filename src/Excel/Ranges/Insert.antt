-- ===== src/Excel/Ranges/Insert.antt =====
-- Inserting a range that was not read before (range.rs).
use tabulark.Base.{
  ℕ, ◌+◌, ◌≤◌, ◌<◌, ◌≡◌, ◌⊎◌, inl, inr, refl, ap, ◌∙◌, arith, true, false, [], ◌∷◌, ◌++◌, Option,
  none, some, All, ◌==◌, ==_iff, if◌then◌else◌, length, length-append, Bool-cases, u64_max, le→leb,
  le→not-ltb,
}
use tabulark.Text.{Bytes}
use tabulark.Error.{ok}
use tabulark.State.{M, done, monad, pure, lift, modify, ◌>>=◌, >>=-step}
use tabulark.Excel.Segments.{Segments, last_at_most, last_below, first_at_least}
use tabulark.Excel.Segments.Placed.{WellPlaced, byte_at}
use tabulark.Excel.Segments.Splice.{Apart, settle, place, place_from, splice, place-splice}
use tabulark.Excel.Segments.Filled.{filled, splice-WellPlaced, byte_at-splice}
use tabulark.Maps.{remove}
use tabulark.Excel.Host.{HostRange, end, segment_end, check_previous, check_next}
use tabulark.Excel.Ranges.{IndexedRanges, insert, add_range, absorb_previous, absorb_next, take_out}
use tabulark.Excel.Ranges.Order.{
  IsIndexed, EndBy-splice, total-splice, total-le, Found, Found-last_at_most, Found-last_below,
  Found-first_at_least,
}

-- Both that a segment does not touch the range and that it has bytes.
AllBoth : (P Q : ℕ × Bytes → Type 0) (m : Segments) → All P m → All Q m → All (λ q. P q × Q q) m
AllBoth P Q [] p q = tt
AllBoth P Q (x ∷ m) p q = ((p.0, q.0), AllBoth P Q m p.1 q.1)

AllFilled : (low : ℕ) (m : Segments) → WellPlaced low m → All (λ q. 0 < length q.1) m
AllFilled low [] w = tt
AllFilled low ((s, b) ∷ m) w = (w.0.1, AllFilled (s + length b + 1) m w.1)

pure-done : {A : Type 0} (a : A) (r : IndexedRanges) → pure a r ≡ done a r
unfolding pure
pure-done a r = refl

-- The last steps of `add_range`, from what was absorbed.
abbrev finish : ℕ × Bytes → M IndexedRanges (Unit {0})
finish merged = lift (segment_end merged.0 merged.1) >>= λ merged_end.
    modify (absorb_next merged.0 merged.1 merged_end)

finish-settles :
    (start : ℕ) (merged : Bytes) (r : IndexedRanges)
    → start + length merged ≤ u64_max
    → finish (start, merged) r ≡ done tt (record r { ranges = settle start merged r.ranges })
unfolding segment_end absorb_next monad
finish-settles start merged r h =
    rw (le→leb (length merged) u64_max (omega arith)) rw (le→leb (start + length merged) u64_max h)
      refl

absorbs :
    (s : ℕ) (b : Bytes) (o : ℕ) (bytes : Bytes) (r : IndexedRanges)
    → s + length b ≤ u64_max
    → absorb_previous (some (s, b)) o bytes r ≡ (
        if (s + length b) == o
        then done (s, b ++ bytes) (record r { ranges = remove s r.ranges })
        else done (o, bytes) r)
unfolding absorb_previous take_out monad
absorbs s b o bytes r h = ground arith

module _ (requested : HostRange) (bytes : Bytes) (filled_in : 0 < length bytes)
    (fits : length bytes ≡ requested.length) where
  previous_passes :
      (l : Option (ℕ × Bytes))
      → Found
          (λ q.
            ((q.0 + length q.1 ≤ requested.offset) ⊎ (end requested ≤ q.0))
            × (q.0 ≤ requested.offset))
          l
      → end requested ≤ u64_max
      → check_previous l requested bytes ≡ ok false
  unfolding check_previous segment_end
  previous_passes none f u = refl
  previous_passes (some (s, b)) (inl e, k) u = ground arith
  previous_passes (some (s, b)) (inr e, k) u = absurd (omega (arith, fits))

  next_passes :
      (l : Option (ℕ × Bytes))
      → Found
          (λ q.
            (((q.0 + length q.1 ≤ requested.offset) ⊎ (end requested ≤ q.0)) × (0 < length q.1))
            × (requested.offset ≤ q.0))
          l
      → check_next l requested ≡ ok tt
  unfolding check_next
  next_passes none f = refl
  next_passes (some (s, b)) ((inl e, n), k) = absurd (omega arith)
  next_passes (some (s, b)) ((inr e, n), k) = ground arith

  -- A segment before is joined: on the list that is `place_from`.
  joined :
      (l : Option (ℕ × Bytes)) (r : IndexedRanges)
      → Found (λ q. q.0 + length q.1 ≤ u64_max) l
      → end requested ≤ u64_max
      → (absorb_previous l requested.offset bytes >>= finish) r
        ≡ done tt (record r { ranges = place_from l requested.offset bytes r.ranges })
  unfolding absorb_previous
  joined none r f u =
      >>=-step (pure (requested.offset, bytes)) finish r r (requested.offset, bytes)
        (done tt (record r { ranges = settle requested.offset bytes r.ranges }))
        (pure-done (requested.offset, bytes) r)
        (finish-settles requested.offset bytes r (omega (arith, fits)))
  joined (some (s, b)) r f u = go (Bool-cases ((s + length b) == requested.offset))
    where
      go :
          (((s + length b) == requested.offset) ≡ true)
            ⊎ (((s + length b) == requested.offset) ≡ false)
          → (absorb_previous (some (s, b)) requested.offset bytes >>= finish) r
            ≡ done tt
                (record r { ranges = place_from (some (s, b)) requested.offset bytes r.ranges })
      go (inl e) =
          >>=-step (absorb_previous (some (s, b)) requested.offset bytes) finish r
            (record r { ranges = remove s r.ranges }) (s, b ++ bytes) _
            (absorbs s b requested.offset bytes r f ∙ rw e refl)
            (rw e (
              finish-settles s (b ++ bytes) (record r { ranges = remove s r.ranges })
                (rw (length-append b bytes)
                  (omega (arith, fits, (==_iff (s + length b) requested.offset).0 e)))))
      go (inr e) =
          >>=-step (absorb_previous (some (s, b)) requested.offset bytes) finish r r
            (requested.offset, bytes) _ (absorbs s b requested.offset bytes r f ∙ rw e refl)
            (rw e (finish-settles requested.offset bytes r (omega (arith, fits))))

  add_range-place :
      (r : IndexedRanges) (n : ℕ)
      → check_next (first_at_least requested.offset r.ranges) requested ≡ ok tt
      → r.retained_bytes + n ≤ u64_max
      → Found (λ q. q.0 + length q.1 ≤ u64_max) (last_below requested.offset r.ranges)
      → end requested ≤ u64_max
      → add_range requested bytes n r
        ≡ done tt (record r {
          ranges = place requested.offset bytes r.ranges;
          retained_bytes = r.retained_bytes + n;
        })
  unfolding add_range monad
  add_range-place r n c k f u =
      rw (c, le→leb (r.retained_bytes + n) u64_max k)
        (joined (last_below requested.offset r.ranges)
          (record r { retained_bytes = r.retained_bytes + n }) f u)

-- The ranges behind a new one.
abbrev pub inserted : HostRange → Bytes → IndexedRanges → IndexedRanges
inserted requested bytes r = record r {
  ranges = splice requested.offset bytes r.ranges;
  retained_bytes = r.retained_bytes + length bytes;
}

inserted-IsIndexed :
    (requested : HostRange) (bytes : Bytes) (r : IndexedRanges)
    → IsIndexed r
    → length bytes ≡ requested.length
    → 0 < length bytes
    → end requested ≤ r.source_length
    → Apart requested.offset (end requested) r.ranges
    → IsIndexed (inserted requested bytes r)
inserted-IsIndexed requested bytes r v fits h within a = record {
  placed = splice-WellPlaced requested.offset bytes h 0 r.ranges (omega arith) (rw fits a) v.placed;
  within =
      EndBy-splice r.source_length requested.offset bytes r.ranges (omega (arith, fits)) v.within;
  counted = omega (arith, v.counted, total-splice requested.offset bytes r.ranges);
  addressable = v.addressable;
}

EndBy-Found :
    (limit : ℕ) (l : Option (ℕ × Bytes)) (k : ℕ)
    → limit ≤ u64_max
    → Found (λ q. (q.0 + length q.1 ≤ limit) × (q.0 < k)) l
    → Found (λ q. q.0 + length q.1 ≤ u64_max) l
EndBy-Found limit none k u f = tt
EndBy-Found limit (some q) k u f = omega (arith, f.0)

insert-inserted :
    (requested : HostRange) (bytes : Bytes) (r : IndexedRanges)
    → IsIndexed r
    → length bytes ≡ requested.length
    → 0 < length bytes
    → end requested ≤ r.source_length
    → Apart requested.offset (end requested) r.ranges
    → insert requested bytes r ≡ done tt (inserted requested bytes r)
unfolding insert monad
insert-inserted requested bytes r v fits h within a =
    rw
      (
        le→not-ltb r.source_length (end requested) within,
        le→leb (length bytes) u64_max (omega (arith, v.addressable)),
        (==_iff (length bytes) requested.length).1 fits,
        previous_passes requested bytes h fits (last_at_most requested.offset r.ranges)
            (Found-last_at_most (λ q. (q.0 + length q.1 ≤ requested.offset) ⊎ (end requested ≤ q.0))
              requested.offset r.ranges a)
            (omega (arith, v.addressable)),
      )
      (add_range-place requested bytes h fits r (length bytes)
          (next_passes requested bytes h fits (first_at_least requested.offset r.ranges) (
            Found-first_at_least
              (λ q.
                ((q.0 + length q.1 ≤ requested.offset) ⊎ (end requested ≤ q.0)) × (0 < length q.1))
              requested.offset r.ranges (AllBoth _ _ r.ranges a (AllFilled 0 r.ranges v.placed))))
          counts
          (EndBy-Found r.source_length (last_below requested.offset r.ranges) requested.offset
            v.addressable
            (Found-last_below (λ q. q.0 + length q.1 ≤ r.source_length) requested.offset r.ranges
              v.within))
          (omega (arith, v.addressable))
        ∙ ap
            (λ m.
              done tt (record r { ranges = m; retained_bytes = r.retained_bytes + length bytes }))
            (place-splice requested.offset 0 bytes r.ranges h (rw fits a) v.placed))
  where
    counts : r.retained_bytes + length bytes ≤ u64_max
    counts =
        let i = inserted-IsIndexed requested bytes r v fits h within a in
        omega (
          arith,
          v.addressable,
          i.counted,
          total-le 0 r.source_length (splice requested.offset bytes r.ranges) i.placed i.within,
        )

-- Bytes for a range of the source of which no byte was read yet are taken. Afterwards the range
-- reads as these bytes, every other place of the source reads as before, and the segments are in
-- order: apart from one another, within the source, and counted.
pub insert-fills :
    (requested : HostRange) (bytes : Bytes) (r : IndexedRanges)
    → IsIndexed r
    → length bytes ≡ requested.length
    → 0 < length bytes
    → end requested ≤ r.source_length
    → Apart requested.offset (end requested) r.ranges
    → (s : IndexedRanges) × (insert requested bytes r ≡ done tt s)
      × IsIndexed s
      × ((p : ℕ) → byte_at s.ranges p ≡ filled requested.offset bytes (byte_at r.ranges) p)
insert-fills requested bytes r v fits h within a = (
  inserted requested bytes r,
  insert-inserted requested bytes r v fits h within a,
  inserted-IsIndexed requested bytes r v fits h within a,
  λ p. byte_at-splice requested.offset bytes h 0 r.ranges p (rw fits a) v.placed,
)
