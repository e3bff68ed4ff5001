-- ===== src/Excel/Segments/Splice.antt =====
-- What `IndexedRanges::insert` (range.rs) makes of the segments, place by place of the list.
use tabulark.Base.{
  ℕ, ◌+◌, ◌≤◌, ◌<◌, ◌≡◌, ◌⊎◌, inl, inr, refl, ap, subst, lt→ltb, le→leb, lt→not-leb, ◌∙◌, arith,
  true, false, [], ◌∷◌, ◌++◌, Option, none, some, All, ltb, leb, ◌==◌, ==_iff, if◌then◌else◌,
  length, length-append, Bool-cases,
}
use mathlib.Core.Option.{some-injective}
use tabulark.Text.{Bytes}
use tabulark.Maps.{lookup, remove}
use tabulark.Excel.Segments.{Segments, or_else, last_below, insert_segment, with_next}
use tabulark.Excel.Segments.Placed.{
  WellPlaced, lookup-low, remove-low, last_below-low, insert_segment-low,
}

-- No segment has a byte from `o` up to `e`.
abbrev pub Apart : ℕ → ℕ → Segments → Type 0
Apart o e = All (λ q. (q.0 + length q.1 ≤ o) ⊎ (e ≤ q.0))

-- The code on the list: a segment that ends at the new one, and one that begins at its end.
abbrev pub settle : ℕ → Bytes → Segments → Segments
settle start merged m =
    insert_segment start (with_next (lookup (start + length merged) m) merged)
      (remove (start + length merged) m)

abbrev pub place_from : Option (ℕ × Bytes) → ℕ → Bytes → Segments → Segments
place_from none o bytes m = settle o bytes m
place_from (some (start, previous)) o bytes m =
    if (start + length previous) == o
    then settle start (previous ++ bytes) (remove start m)
    else settle o bytes m

abbrev pub place : ℕ → Bytes → Segments → Segments
place o bytes m = place_from (last_below o m) o bytes m

-- A segment in front of others, joined with the first of them if that begins at its end.
unfoldable pub glue : ℕ → Bytes → Segments → Segments
glue start new [] = (start, new) ∷ []
glue start new ((t, c) ∷ m) =
    if t == (start + length new) then (start, new ++ c) ∷ m else (start, new) ∷ (t, c) ∷ m

-- The same by recursion.
unfoldable pub splice : ℕ → Bytes → Segments → Segments
unfolding glue
splice o bytes [] = (o, bytes) ∷ []
splice o bytes ((start, b) ∷ m) =
    let later = (start, b) ∷ splice o bytes m in
    if leb (o + length bytes) start
    then glue o bytes ((start, b) ∷ m)
    else if (start + length b) == o
    then glue start (b ++ bytes) m
    else later

settle-glue :
    (start : ℕ) (new : Bytes) (m : Segments)
    → 0 < length new
    → WellPlaced (start + length new) m
    → settle start new m ≡ glue start new m
unfolding glue insert_segment
settle-glue start new [] h w = refl
settle-glue start new ((t, c) ∷ m) h w = elim (Bool-cases (t == (start + length new))) [
  | inl e ↦
      let same = (==_iff t (start + length new)).0 e in
      rw (e, remove-low (start + length new) (t + length c + 1) m (omega arith) w.1)
        (insert_segment-low start (t + length c + 1) (new ++ c) m (omega arith) w.1)
  | inr e ↦
      rw
        (
          e,
          lookup-low (start + length new) (t + length c + 1) m (omega (arith, w.0)) w.1,
          remove-low (start + length new) (t + length c + 1) m (omega (arith, w.0)) w.1,
        )
        ground (arith, w.0)
]

settle-skip :
    (start : ℕ) (new : Bytes) (s : ℕ) (b : Bytes) (m : Segments)
    → s < start
    → settle start new ((s, b) ∷ m) ≡ (s, b) ∷ settle start new m
unfolding insert_segment
settle-skip start new s b m h = ground arith

-- Behind the place where the new bytes begin there is room for them.
Apart-room :
    (o e low : ℕ) (m : Segments) → o < low → Apart o e m → WellPlaced low m → WellPlaced e m
Apart-room o e low [] h a w = tt
Apart-room o e low ((t, c) ∷ m) h (inl a, rest) w = absurd (omega (arith, w.0))
Apart-room o e low ((t, c) ∷ m) h (inr a, rest) w = ((a, w.0.1), w.1)

last_below-start :
    (o low : ℕ) (m : Segments) (t : ℕ) (c : Bytes)
    → WellPlaced low m
    → last_below o m ≡ some (t, c)
    → low ≤ t
unfolding last_below
last_below-start o low [] t c w h = cc
last_below-start o low ((s, b) ∷ m) t c w h =
    go (last_below o m) refl (Bool-cases (ltb s o))
      (last_below-start o (s + length b + 1) m t c w.1)
  where
    go :
        (l : Option (ℕ × Bytes))
        → last_below o m ≡ l
        → (ltb s o ≡ true) ⊎ (ltb s o ≡ false)
        → (last_below o m ≡ some (t, c) → s + length b + 1 ≤ t)
        → low ≤ t
    go l e (inr f) next = let k = rw f at h in cc
    go none e (inl f) next =
        let k = rw (f, e) at h in
        subst (λ n. low ≤ n) (ap (λ q. q.0) (some-injective (s, b) (t, c) k)) w.0.0
    go (some (u, d)) e (inl f) next = let k = rw (f, e) at h in omega (arith, next (e ∙ k), w.0)

last_below-cons :
    (o s : ℕ) (b : Bytes) (m : Segments)
    → s < o
    → last_below o ((s, b) ∷ m) ≡ or_else (last_below o m) (s, b)
unfolding last_below
last_below-cons o s b m h = rw (lt→ltb s o h) refl

place_from-skip :
    (t : ℕ) (c : Bytes) (o : ℕ) (bytes : Bytes) (s : ℕ) (b : Bytes) (m : Segments)
    → s < t
    → s < o
    → place_from (some (t, c)) o bytes ((s, b) ∷ m) ≡ (s, b) ∷ place_from (some (t, c)) o bytes m
place_from-skip t c o bytes s b m h k = elim (Bool-cases ((t + length c) == o)) [
  | inl e ↦ rw e (
      ap (settle t (c ++ bytes)) (remove-skip (Bool-cases (s == t)))
      ∙ settle-skip t (c ++ bytes) s b (remove t m) h)
  | inr e ↦ rw e (settle-skip o bytes s b m k)
]
  where
    remove-skip :
        ((s == t) ≡ true) ⊎ ((s == t) ≡ false) → remove t ((s, b) ∷ m) ≡ (s, b) ∷ remove t m
    remove-skip (inl e) = absurd (ground arith)
    remove-skip (inr e) = rw e refl

-- The room behind a segment that ends where the new bytes begin, and those bytes.
pub room-joined :
    (o low : ℕ) (bytes : Bytes) (s : ℕ) (b : Bytes) (m : Segments)
    → Apart o (o + length bytes) m
    → WellPlaced low ((s, b) ∷ m)
    → s + length b ≡ o
    → WellPlaced (s + length (b ++ bytes)) m
room-joined o low bytes s b m a w e =
    subst (λ n. WellPlaced n m) (omega (arith, length-append b bytes))
      (Apart-room o (o + length bytes) (s + length b + 1) m (omega arith) a w.1)

-- A segment that ends where the new bytes begin.
place-joined :
    (o low : ℕ) (bytes : Bytes) (s : ℕ) (b : Bytes) (m : Segments)
    → 0 < length bytes
    → Apart o (o + length bytes) m
    → WellPlaced low ((s, b) ∷ m)
    → s + length b ≡ o
    → place o bytes ((s, b) ∷ m) ≡ glue s (b ++ bytes) m
place-joined o low bytes s b m h a w e =
    rw
      (
        last_below-cons o s b m (omega (arith, w.0)),
        last_below-low o (s + length b + 1) m (omega arith) w.1,
        (==_iff (s + length b) o).1 e,
        remove_self,
      )
      (settle-glue s (b ++ bytes) m (rw (length-append b bytes) (omega arith))
        (room-joined o low bytes s b m a w e))
  where
    remove_self : remove s ((s, b) ∷ m) ≡ m
    remove_self = ground (arith, remove-low s (s + length b + 1) m (omega arith) w.1)

pub place-splice :
    (o low : ℕ) (bytes : Bytes) (m : Segments)
    → 0 < length bytes
    → Apart o (o + length bytes) m
    → WellPlaced low m
    → place o bytes m ≡ splice o bytes m
unfolding splice
place-splice o low bytes [] h a w =
    rw (last_below-low o o [] (omega arith) tt) (settle-glue o bytes [] h tt)
place-splice o low bytes ((s, b) ∷ m) h (inr a, rest) w =
    rw
      (
        last_below-low o (o + length bytes) ((s, b) ∷ m) (omega arith) ((a, w.0.1), w.1),
        le→leb (o + length bytes) s a,
      )
      (settle-glue o bytes ((s, b) ∷ m) h ((a, w.0.1), w.1))
place-splice o low bytes ((s, b) ∷ m) h (inl a, rest) w =
    rw (lt→not-leb (o + length bytes) s (omega (arith, w.0))) (
      go (Bool-cases ((s + length b) == o)) (last_below o m) refl
        (place-splice o (s + length b + 1) bytes m h rest w.1))
  where
    go :
        (((s + length b) == o) ≡ true) ⊎ (((s + length b) == o) ≡ false)
        → (l : Option (ℕ × Bytes)) → last_below o m ≡ l
        → place o bytes m ≡ splice o bytes m
        → place o bytes ((s, b) ∷ m)
          ≡ (if (s + length b) == o then glue s (b ++ bytes) m else (s, b) ∷ splice o bytes m)
    go (inl e) l f k =
        rw e (place-joined o low bytes s b m h rest w ((==_iff (s + length b) o).0 e))
    go (inr e) none f k =
        rw (last_below-cons o s b m (omega (arith, w.0)), f, e)
          (settle-skip o bytes s b m (omega (arith, w.0)) ∙ ap (◌∷◌ (s, b)) (rw f at k))
    go (inr e) (some (t, c)) f k =
        rw (last_below-cons o s b m (omega (arith, w.0)), f, e)
          (place_from-skip t c o bytes s b m
              (omega (arith, last_below-start o (s + length b + 1) m t c w.1 f))
              (omega (arith, w.0))
            ∙ ap (◌∷◌ (s, b)) (rw f at k))
