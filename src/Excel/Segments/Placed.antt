-- ===== src/Excel/Segments/Placed.antt =====
-- Segments in order, with a gap between each and the next (range.rs), and the bytes that they hold.
use tabulark.Base.{
  ℕ, ◌+◌, ◌-◌, ◌≤◌, ◌<◌, ◌≡◌, ◌⊎◌, inl, inr, refl, arith, true, false, [], ◌∷◌, Option, none, some,
  ltb, leb, if◌then◌else◌, length, get_elem?, get_elem?-ge, Bool-cases, leb→le, not-leb→lt,
}
use tabulark.Text.{Bytes}
use tabulark.Maps.{lookup, remove}
use tabulark.Excel.Segments.{Segments, or_else, last_at_most, last_below, insert_segment}

-- Every segment has bytes, the first one begins at `low` or behind it, and each further one behind
-- the end of the one before.
abbrev pub WellPlaced : ℕ → Segments → Type 0
WellPlaced low [] = Unit
WellPlaced low ((start, bytes) ∷ m) =
    ((low ≤ start) × (0 < length bytes)) × WellPlaced (start + length bytes + 1) m

-- The byte at a place of the source, if it is there.
unfoldable pub byte_at : Segments → ℕ → Option ℕ
byte_at [] p = none
byte_at ((start, bytes) ∷ m) p =
    let later = byte_at m p in
    if ltb p (start + length bytes)
    then if leb start p then get_elem? bytes (p - start) else none
    else later

pub WellPlaced-mono : (n k : ℕ) (m : Segments) → n ≤ k → WellPlaced k m → WellPlaced n m
WellPlaced-mono n k [] le w = tt
WellPlaced-mono n k ((start, bytes) ∷ m) le w = ((omega (arith, w.0.0), w.0.1), w.1)

-- What the operations of the map do below its segments.
pub lookup-low : (k low : ℕ) (m : Segments) → k < low → WellPlaced low m → lookup k m ≡ none
lookup-low k low [] h w = refl
lookup-low k low ((start, bytes) ∷ m) h w =
    ground (arith, lookup-low k (start + length bytes + 1) m (omega (arith, w.0)) w.1, w.0)

pub remove-low : (k low : ℕ) (m : Segments) → k < low → WellPlaced low m → remove k m ≡ m
remove-low k low [] h w = refl
remove-low k low ((start, bytes) ∷ m) h w =
    ground (arith, remove-low k (start + length bytes + 1) m (omega (arith, w.0)) w.1, w.0)

pub last_below-low : (k low : ℕ) (m : Segments) → k ≤ low → WellPlaced low m → last_below k m ≡ none
unfolding last_below
last_below-low k low [] h w = refl
last_below-low k low ((start, bytes) ∷ m) h w = ground (arith, w.0)

pub insert_segment-low :
    (k low : ℕ) (new : Bytes) (m : Segments)
    → k < low
    → WellPlaced low m
    → insert_segment k new m ≡ (k, new) ∷ m
unfolding insert_segment
insert_segment-low k low new [] h w = refl
insert_segment-low k low new ((start, bytes) ∷ m) h w = ground (arith, w.0)

pub byte_at-low : (p low : ℕ) (m : Segments) → p < low → WellPlaced low m → byte_at m p ≡ none
unfolding byte_at
byte_at-low p low [] h w = refl
byte_at-low p low ((start, bytes) ∷ m) h w = ground (arith, w.0)

abbrev pub at_segment : Option (ℕ × Bytes) → ℕ → Option ℕ
at_segment none p = none
at_segment (some (start, bytes)) p = get_elem? bytes (p - start)

-- What the segment found from the left starts at.
abbrev pub StartsIn : Option (ℕ × Bytes) → ℕ → ℕ → Type 0
StartsIn none low p = Unit
StartsIn (some (start, bytes)) low p = (low ≤ start) × (start ≤ p)

pub last_at_most-start :
    (p low : ℕ) (m : Segments) → WellPlaced low m → StartsIn (last_at_most p m) low p
unfolding last_at_most
last_at_most-start p low [] w = tt
last_at_most-start p low ((start, bytes) ∷ m) w =
    go (last_at_most p m) (last_at_most-start p (start + length bytes + 1) m w.1)
      (Bool-cases (leb start p))
  where
    go :
        (o : Option (ℕ × Bytes))
        → StartsIn o (start + length bytes + 1) p
        → (leb start p ≡ true) ⊎ (leb start p ≡ false)
        → StartsIn (if leb start p then or_else o (start, bytes) else none) low p
    go o h (inr e) = rw e tt
    go none h (inl e) = rw e (w.0.0, leb→le start p e)
    go (some (t, c)) h (inl e) = rw e (omega (arith, w.0, h), h.1)

-- A place is looked up in the last segment that begins at it or before it.
pub byte_at-last :
    (p low : ℕ) (m : Segments) → WellPlaced low m → byte_at m p ≡ at_segment (last_at_most p m) p
unfolding byte_at last_at_most
byte_at-last p low [] w = refl
byte_at-last p low ((start, bytes) ∷ m) w =
    go (last_at_most p m) (last_at_most-start p (start + length bytes + 1) m w.1)
      (byte_at-last p (start + length bytes + 1) m w.1) (Bool-cases (leb start p))
  where
    go :
        (o : Option (ℕ × Bytes))
        → StartsIn o (start + length bytes + 1) p
        → byte_at m p ≡ at_segment o p
        → (leb start p ≡ true) ⊎ (leb start p ≡ false)
        → byte_at ((start, bytes) ∷ m) p
          ≡ at_segment (if leb start p then or_else o (start, bytes) else none) p
    go o h k (inr e) = rw e ground (arith, not-leb→lt start p e)
    go none h k (inl e) = rw e ground (arith, get_elem?-ge bytes (p - start))
    go (some (t, c)) h k (inl e) = rw e ground (arith, h, w.0)
