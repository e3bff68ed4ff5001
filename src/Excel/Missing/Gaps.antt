-- ===== src/Excel/Missing/Gaps.antt =====
-- Where nothing was read, between the segments (range.rs).
use tabulark.Base.{
  ℕ, zero, suc, ◌+◌, ◌-◌, ◌≤◌, ◌<◌, ◌≡◌, ◌≢◌, ◌⊎◌, inl, inr, refl, sym, ap, ◌∙◌, arith, true, false,
  [], ◌∷◌, Option, none, some, ltb, leb, length, Bool-cases, get_elem?, not-leb→lt, le→not-ltb,
  le→leb, subst, lt→ltb, get_elem?-lt,
}
use mathlib.Core.Option.{some-injective}
use tabulark.Text.{Bytes}
use tabulark.Excel.Segments.{Segments, last_at_most, first_at_least}
use tabulark.Excel.Segments.Placed.{WellPlaced, byte_at, byte_at-low, last_at_most-start, StartsIn}

pub get_elem?-ne : (bytes : Bytes) (i : ℕ) → i < length bytes → get_elem? bytes i ≢ none
get_elem?-ne bytes i h = let (b, e) = get_elem?-lt bytes i h in λ k. cc

pub get_elem?-some_lt : (bytes : Bytes) (i y : ℕ) → get_elem? bytes i ≡ some y → i < length bytes
get_elem?-some_lt [] i y h = cc
get_elem?-some_lt (b ∷ bytes) zero y h = omega arith
get_elem?-some_lt (b ∷ bytes) (suc i) y h = omega (arith, get_elem?-some_lt bytes i y h)

-- The place behind a segment is not read.
pub byte_at-gap :
    (low p : ℕ) (m : Segments) (s : ℕ) (b : Bytes)
    → WellPlaced low m
    → last_at_most p m ≡ some (s, b)
    → byte_at m (s + length b) ≡ none
unfolding byte_at last_at_most
byte_at-gap low p [] s b w h = cc
byte_at-gap low p ((t, c) ∷ m) s b w h =
    go (last_at_most p m) refl (Bool-cases (leb t p))
      (last_at_most-start p (t + length c + 1) m w.1) (byte_at-gap (t + length c + 1) p m s b w.1)
  where
    go :
        (o : Option (ℕ × Bytes))
        → last_at_most p m ≡ o
        → (leb t p ≡ true) ⊎ (leb t p ≡ false)
        → StartsIn o (t + length c + 1) p
        → (last_at_most p m ≡ some (s, b) → byte_at m (s + length b) ≡ none)
        → byte_at ((t, c) ∷ m) (s + length b) ≡ none
    go o e (inr f) k rest = let q = rw f at h in cc
    go none e (inl f) k rest =
        let q = some-injective (t, c) (s, b) (rw (f, e) at h) in
        subst (λ z. byte_at ((t, c) ∷ m) (z.0 + length z.1) ≡ none) q ground
          (arith, byte_at-low (t + length c) (t + length c + 1) m (omega arith) w.1)
    go (some (u, d)) e (inl f) k rest =
        let q = rw (f, e) at h in
        let z = ap (λ z. z.0) (some-injective (u, d) (s, b) q) in ground (arith, rest (e ∙ q), z, k)

-- From a place that is not read up to the next segment nothing is.
pub unread-next :
    (low p x : ℕ) (m : Segments)
    → WellPlaced low m
    → byte_at m p ≡ none
    → p ≤ x
    → ((t : ℕ) (c : Bytes) → first_at_least p m ≡ some (t, c) → x < t)
    → byte_at m x ≡ none
unfolding byte_at first_at_least
unread-next low p x [] w h le n = refl
unread-next low p x ((s, b) ∷ m) w h le n = elim (Bool-cases (leb p s)) [
  | inl e ↦ let k = n s b (rw e refl) in ground arith
  | inr e ↦
      let behind : s + length b ≤ p = behind_segment (not-leb→lt p s e) in
      let rest =
        unread-next (s + length b + 1) p x m w.1 (rw (le→not-ltb p (s + length b) behind) at h) le
          (λ t c k. n t c (rw e k)) in
      rw (le→not-ltb x (s + length b) (omega arith)) rest
]
  where
    behind_segment : s < p → s + length b ≤ p
    behind_segment k = elim (Bool-cases (ltb p (s + length b))) [
      | inl f ↦
          absurd (get_elem?-ne b (p - s) (ground arith) (rw (f, le→leb s p (omega arith)) at h))
      | inr f ↦ ground arith
    ]

-- The next segment from a place that is not read begins behind it.
pub first_at_least-unread :
    (low p : ℕ) (m : Segments) (t : ℕ) (c : Bytes)
    → WellPlaced low m
    → byte_at m p ≡ none
    → first_at_least p m ≡ some (t, c)
    → p < t
unfolding byte_at first_at_least
first_at_least-unread low p [] t c w h k = cc
first_at_least-unread low p ((s, b) ∷ m) t c w h k = elim (Bool-cases (leb p s)) [
  | inl e ↦
      let q = ap (λ z. z.0) (some-injective (s, b) (t, c) (rw e at k)) in
      ground (arith, get_elem?-ne b (p - s), q, w.0)
  | inr e ↦ elim (Bool-cases (ltb p (s + length b))) [
    | inl f ↦
        absurd (get_elem?-ne b (p - s) (ground arith) (rw (f, le→leb s p (ground arith)) at h))
    | inr f ↦ first_at_least-unread (s + length b + 1) p m t c w.1 (rw f at h) (rw e at k)
  ]
]

-- From a place in a segment up to the end of that segment everything is read.
pub byte_at-within :
    (low p : ℕ) (m : Segments) (s : ℕ) (b : Bytes) (x : ℕ)
    → WellPlaced low m
    → last_at_most p m ≡ some (s, b)
    → p ≤ x
    → x < s + length b
    → byte_at m x ≢ none
unfolding byte_at last_at_most
byte_at-within low p [] s b x w h le lt = cc
byte_at-within low p ((t, c) ∷ m) s b x w h le lt =
    go (last_at_most p m) refl (Bool-cases (leb t p))
      (last_at_most-start p (t + length c + 1) m w.1)
      (λ e. byte_at-within (t + length c + 1) p m s b x w.1 e le lt)
  where
    go :
        (o : Option (ℕ × Bytes))
        → last_at_most p m ≡ o
        → (leb t p ≡ true) ⊎ (leb t p ≡ false)
        → StartsIn o (t + length c + 1) p
        → (last_at_most p m ≡ some (s, b) → byte_at m x ≢ none)
        → byte_at ((t, c) ∷ m) x ≢ none
    go o e (inr f) k rest = let q = rw f at h in cc
    go none e (inl f) k rest =
        let q = some-injective (t, c) (s, b) (rw (f, e) at h) in
        let inside : x < t + length c = subst (λ z. x < z.0 + length z.1) (sym q) lt in
        let after : t ≤ x = ground arith in
        rw (lt→ltb x (t + length c) inside, le→leb t x after) (get_elem?-ne c (x - t) (omega arith))
    go (some (u, d)) e (inl f) k rest =
        rw (le→not-ltb x (t + length c) (omega (arith, k))) (rest (e ∙ (rw (f, e) at h)))

-- Places of a segment read as its bytes.
pub byte_at-in :
    (low p : ℕ) (m : Segments) (s : ℕ) (b : Bytes) (x : ℕ)
    → WellPlaced low m
    → last_at_most p m ≡ some (s, b)
    → p ≤ x
    → x < s + length b
    → byte_at m x ≡ get_elem? b (x - s)
unfolding byte_at last_at_most
byte_at-in low p [] s b x w h le lt = cc
byte_at-in low p ((t, c) ∷ m) s b x w h le lt =
    go (last_at_most p m) refl (Bool-cases (leb t p))
      (last_at_most-start p (t + length c + 1) m w.1)
      (λ e. byte_at-in (t + length c + 1) p m s b x w.1 e le lt)
  where
    go :
        (o : Option (ℕ × Bytes))
        → last_at_most p m ≡ o
        → (leb t p ≡ true) ⊎ (leb t p ≡ false)
        → StartsIn o (t + length c + 1) p
        → (last_at_most p m ≡ some (s, b) → byte_at m x ≡ get_elem? b (x - s))
        → byte_at ((t, c) ∷ m) x ≡ get_elem? b (x - s)
    go o e (inr f) k rest = let q = rw f at h in cc
    go none e (inl f) k rest =
        let q = some-injective (t, c) (s, b) (rw (f, e) at h) in
        let inside : x < t + length c = subst (λ z. x < z.0 + length z.1) (sym q) lt in
        let after : t ≤ x = ground arith in
        rw (lt→ltb x (t + length c) inside, le→leb t x after) (ap (λ z. get_elem? z.1 (x - z.0)) q)
    go (some (u, d)) e (inl f) k rest =
        rw (le→not-ltb x (t + length c) (omega (arith, k))) (rest (e ∙ (rw (f, e) at h)))
