-- ===== src/Excel/Ranges/Order.antt =====
-- `IndexedRanges` (range.rs) in order: its segments lie in the source, apart from one another, and
-- its count is that of their bytes.
use tabulark.Base.{
  ℕ, ◌+◌, ◌-◌, ◌≤◌, ◌<◌, ◌≡◌, ◌⊎◌, inl, inr, refl, arith, true, false, [], ◌∷◌, ◌++◌, Option, none,
  some, All, ltb, leb, ◌==◌, ==_iff, if◌then◌else◌, length, length-append, Bool-cases, leb→le,
  ltb→lt, u64_max,
}
use tabulark.Text.{Bytes}
use tabulark.Excel.Segments.{Segments, or_else, last_at_most, last_below, first_at_least}
use tabulark.Excel.Segments.Placed.{WellPlaced}
use tabulark.Excel.Segments.Splice.{glue, splice}
use tabulark.Excel.Ranges.{IndexedRanges}

abbrev pub total : Segments → ℕ
total [] = 0
total ((start, bytes) ∷ m) = length bytes + total m

-- Every segment ends at `limit` or before it.
abbrev pub EndBy : ℕ → Segments → Type 0
EndBy limit = All (λ q. q.0 + length q.1 ≤ limit)

pub record IsIndexed (r : IndexedRanges) : Type 0 where
  pub placed : WellPlaced 0 r.ranges
  pub within : EndBy r.source_length r.ranges
  pub counted : r.retained_bytes ≡ total r.ranges
  pub addressable : r.source_length ≤ u64_max

-- Segments that lie apart have no more bytes than there is room for.
pub total-le :
    (low limit : ℕ) (m : Segments) → WellPlaced low m → EndBy limit m → total m ≤ limit - low
total-le low limit [] w e = omega arith
total-le low limit ((s, b) ∷ m) w e =
    omega (arith, w.0, e.0, total-le (s + length b + 1) limit m w.1 e.1)

total-glue :
    (start : ℕ) (new : Bytes) (m : Segments) → total (glue start new m) ≡ length new + total m
unfolding glue
total-glue start new [] = refl
total-glue start new ((t, c) ∷ m) = ground (arith, length-append new c)

pub total-splice :
    (o : ℕ) (bytes : Bytes) (m : Segments) → total (splice o bytes m) ≡ length bytes + total m
unfolding splice
total-splice o bytes [] = refl
total-splice o bytes ((s, b) ∷ m) = ground (
  arith,
  total-glue o bytes ((s, b) ∷ m),
  total-glue s (b ++ bytes) m,
  length-append b bytes,
  total-splice o bytes m,
)

EndBy-glue :
    (limit start : ℕ) (new : Bytes) (m : Segments)
    → start + length new ≤ limit
    → EndBy limit m
    → EndBy limit (glue start new m)
unfolding glue
EndBy-glue limit start new [] h e = (h, tt)
EndBy-glue limit start new ((t, c) ∷ m) h e = elim (Bool-cases (t == (start + length new))) [
  | inl k ↦ rw k (ground (arith, length-append new c, (==_iff t (start + length new)).0 k), e.1)
  | inr k ↦ rw k (h, e)
]

pub EndBy-splice :
    (limit o : ℕ) (bytes : Bytes) (m : Segments)
    → o + length bytes ≤ limit
    → EndBy limit m
    → EndBy limit (splice o bytes m)
unfolding splice
EndBy-splice limit o bytes [] h e = (h, tt)
EndBy-splice limit o bytes ((s, b) ∷ m) h e =
    go (Bool-cases (leb (o + length bytes) s)) (Bool-cases ((s + length b) == o))
      (EndBy-splice limit o bytes m h e.1)
  where
    go :
        (leb (o + length bytes) s ≡ true) ⊎ (leb (o + length bytes) s ≡ false)
        → (((s + length b) == o) ≡ true) ⊎ (((s + length b) == o) ≡ false)
        → EndBy limit (splice o bytes m)
        → EndBy limit (splice o bytes ((s, b) ∷ m))
    go (inl j) k rest = rw j (EndBy-glue limit o bytes ((s, b) ∷ m) h e)
    go (inr j) (inl k) rest =
        rw (j, k)
          (EndBy-glue limit s (b ++ bytes) m
            (omega (arith, length-append b bytes, (==_iff (s + length b) o).0 k)) e.1)
    go (inr j) (inr k) rest = rw (j, k) (e.0, rest)

-- What holds of every segment holds of the one that is found.
abbrev pub Found : (ℕ × Bytes → Type 0) → Option (ℕ × Bytes) → Type 0
Found P none = Unit
Found P (some q) = P q

pub Found-last_at_most :
    (P : ℕ × Bytes → Type 0) (k : ℕ) (m : Segments)
    → All P m
    → Found (λ q. P q × (q.0 ≤ k)) (last_at_most k m)
unfolding last_at_most
Found-last_at_most P k [] h = tt
Found-last_at_most P k ((s, b) ∷ m) h =
    go (last_at_most k m) (Found-last_at_most P k m h.1) (Bool-cases (leb s k))
  where
    go :
        (o : Option (ℕ × Bytes))
        → Found (λ q. P q × (q.0 ≤ k)) o
        → (leb s k ≡ true) ⊎ (leb s k ≡ false)
        → Found (λ q. P q × (q.0 ≤ k)) (if leb s k then or_else o (s, b) else none)
    go o f (inr e) = rw e tt
    go none f (inl e) = rw e (h.0, leb→le s k e)
    go (some q) f (inl e) = rw e f

pub Found-last_below :
    (P : ℕ × Bytes → Type 0) (k : ℕ) (m : Segments)
    → All P m
    → Found (λ q. P q × (q.0 < k)) (last_below k m)
unfolding last_below
Found-last_below P k [] h = tt
Found-last_below P k ((s, b) ∷ m) h =
    go (last_below k m) (Found-last_below P k m h.1) (Bool-cases (ltb s k))
  where
    go :
        (o : Option (ℕ × Bytes))
        → Found (λ q. P q × (q.0 < k)) o
        → (ltb s k ≡ true) ⊎ (ltb s k ≡ false)
        → Found (λ q. P q × (q.0 < k)) (if ltb s k then or_else o (s, b) else none)
    go o f (inr e) = rw e tt
    go none f (inl e) = rw e (h.0, ltb→lt s k e)
    go (some q) f (inl e) = rw e f

pub Found-first_at_least :
    (P : ℕ × Bytes → Type 0) (k : ℕ) (m : Segments)
    → All P m
    → Found (λ q. P q × (k ≤ q.0)) (first_at_least k m)
unfolding first_at_least
Found-first_at_least P k [] h = tt
Found-first_at_least P k ((s, b) ∷ m) h = elim (Bool-cases (leb k s)) [
  | inl e ↦ rw e (h.0, leb→le k s e)
  | inr e ↦ rw e (Found-first_at_least P k m h.1)
]
