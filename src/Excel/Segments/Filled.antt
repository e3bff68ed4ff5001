-- ===== src/Excel/Segments/Filled.antt =====
-- New bytes among the segments (range.rs): they are in order, and every place reads as before but
-- for the new ones.
use tabulark.Base.{
  ℕ, ◌+◌, ◌-◌, ◌≤◌, ◌<◌, ◌≡◌, ◌⊎◌, inl, inr, sym, ap, ◌∙◌, arith, true, false, ◌&&◌, [], ◌∷◌, ◌++◌,
  Option, ltb, leb, le→leb, lt→not-leb, ◌==◌, ==_iff, if◌then◌else◌, length, length-append,
  Bool-cases, get_elem?, get_elem?-append_left, get_elem?-append_right, subst,
}
use tabulark.Text.{Bytes}
use tabulark.Excel.Segments.{Segments}
use tabulark.Excel.Segments.Placed.{WellPlaced, byte_at, byte_at-low}
use tabulark.Excel.Segments.Splice.{Apart, room-joined, glue, splice}

-- A view of the source in which `bytes` stand from `o` on.
abbrev pub filled : ℕ → Bytes → (ℕ → Option ℕ) → ℕ → Option ℕ
filled o bytes view p =
    if leb o p && ltb p (o + length bytes) then get_elem? bytes (p - o) else view p

get_elem?-joined :
    (xs ys : Bytes) (s p : ℕ)
    → s + length xs ≤ p
    → get_elem? (xs ++ ys) (p - s) ≡ get_elem? ys (p - (s + length xs))
get_elem?-joined xs ys s p h =
    ap (get_elem? (xs ++ ys)) {x = p - s} {y = length xs + (p - (s + length xs))} (omega arith)
    ∙ get_elem?-append_right xs ys (p - (s + length xs))

glue-WellPlaced :
    (low start : ℕ) (new : Bytes) (m : Segments)
    → low ≤ start
    → 0 < length new
    → WellPlaced (start + length new) m
    → WellPlaced low (glue start new m)
unfolding glue
glue-WellPlaced low start new [] le h w = ((le, h), tt)
glue-WellPlaced low start new ((t, c) ∷ m) le h w = elim (Bool-cases (t == (start + length new))) [
  | inl e ↦ rw e (
    (le, rw (length-append new c) (omega arith)),
    subst (λ n. WellPlaced n m)
        (omega (arith, length-append new c, (==_iff t (start + length new)).0 e)) w.1,
  )
  | inr e ↦ rw e ((le, h), ((ground (arith, w.0), w.0.1), w.1))
]

byte_at-glue :
    (start : ℕ) (new : Bytes) (m : Segments) (p : ℕ)
    → WellPlaced (start + length new) m
    → byte_at (glue start new m) p ≡ filled start new (byte_at m) p
unfolding glue byte_at
byte_at-glue start new [] p w = ground arith
byte_at-glue start new ((t, c) ∷ m) p w = elim (Bool-cases (t == (start + length new))) [
  | inl e ↦
      rw (e, (==_iff t (start + length new)).0 e) ground
        (
          arith,
          length-append new c,
          get_elem?-append_left new c (p - start),
          get_elem?-joined new c start p,
        )
  | inr e ↦ rw e ground (arith, w.0)
]

-- The bytes that end where the new ones begin go on with them.
byte_at-joined :
    (s : ℕ) (b bytes : Bytes) (m : Segments) (o p : ℕ)
    → s + length b ≡ o
    → WellPlaced (o + 1) m
    → filled s (b ++ bytes) (byte_at m) p ≡ filled o bytes (byte_at ((s, b) ∷ m)) p
unfolding byte_at
byte_at-joined s b bytes m o p e w = rw (sym e) ground (
  arith,
  length-append b bytes,
  get_elem?-append_left b bytes (p - s),
  get_elem?-joined b bytes s p,
  byte_at-low p (o + 1) m,
)

byte_at-skip :
    (s : ℕ) (b bytes : Bytes) (m m' : Segments) (o p : ℕ)
    → s + length b ≤ o
    → byte_at m' p ≡ filled o bytes (byte_at m) p
    → byte_at ((s, b) ∷ m') p ≡ filled o bytes (byte_at ((s, b) ∷ m)) p
unfolding byte_at
byte_at-skip s b bytes m m' o p a k = ground arith

module _ (o : ℕ) (bytes : Bytes) (h : 0 < length bytes) where
  pub splice-WellPlaced :
      (low : ℕ) (m : Segments)
      → low ≤ o
      → Apart o (o + length bytes) m
      → WellPlaced low m
      → WellPlaced low (splice o bytes m)
  unfolding splice
  splice-WellPlaced low [] le a w = ((le, h), tt)
  splice-WellPlaced low ((s, b) ∷ m) le (inr a, rest) w =
      rw (le→leb (o + length bytes) s a)
        (glue-WellPlaced low o bytes ((s, b) ∷ m) le h ((a, w.0.1), w.1))
  splice-WellPlaced low ((s, b) ∷ m) le (inl a, rest) w =
      rw (lt→not-leb (o + length bytes) s (omega (arith, w.0))) (
        go (Bool-cases ((s + length b) == o))
          (λ n. splice-WellPlaced (s + length b + 1) m n rest w.1))
    where
      go :
          (((s + length b) == o) ≡ true) ⊎ (((s + length b) == o) ≡ false)
          → (s + length b + 1 ≤ o → WellPlaced (s + length b + 1) (splice o bytes m))
          → WellPlaced low
              (if (s + length b) == o then glue s (b ++ bytes) m else (s, b) ∷ splice o bytes m)
      go (inl e) k = rw e (
          glue-WellPlaced low s (b ++ bytes) m w.0.0 (rw (length-append b bytes) (omega (arith, h)))
            (room-joined o low bytes s b m rest w ((==_iff (s + length b) o).0 e)))
      go (inr e) k = rw e (w.0, k (ground arith))

  pub byte_at-splice :
      (low : ℕ) (m : Segments) (p : ℕ)
      → Apart o (o + length bytes) m
      → WellPlaced low m
      → byte_at (splice o bytes m) p ≡ filled o bytes (byte_at m) p
  unfolding splice
  byte_at-splice low [] p a w = byte_at-glue o bytes [] p tt
  byte_at-splice low ((s, b) ∷ m) p (inr a, rest) w =
      rw (le→leb (o + length bytes) s a) (byte_at-glue o bytes ((s, b) ∷ m) p ((a, w.0.1), w.1))
  byte_at-splice low ((s, b) ∷ m) p (inl a, rest) w =
      rw (lt→not-leb (o + length bytes) s (omega (arith, w.0)))
        (go (Bool-cases ((s + length b) == o)) (byte_at-splice (s + length b + 1) m p rest w.1))
    where
      go :
          (((s + length b) == o) ≡ true) ⊎ (((s + length b) == o) ≡ false)
          → byte_at (splice o bytes m) p ≡ filled o bytes (byte_at m) p
          → byte_at
              (if (s + length b) == o then glue s (b ++ bytes) m else (s, b) ∷ splice o bytes m)
              p
            ≡ filled o bytes (byte_at ((s, b) ∷ m)) p
      go (inl e) k =
          let same = (==_iff (s + length b) o).0 e in
          rw e (
            byte_at-glue s (b ++ bytes) m p (room-joined o low bytes s b m rest w same)
            ∙ byte_at-joined s b bytes m o p same (subst (λ n. WellPlaced (n + 1) m) same w.1))
      go (inr e) k = rw e (byte_at-skip s b bytes m (splice o bytes m) o p a k)
