-- ===== src/Protocol/Matching/Pigeonhole.antt =====
-- As many different numbers as a list has places, all of them in the list, are all of the list.
use tabulark.Base.{
  ℕ, ◌+◌, ◌≡◌, ◌≢◌, subst, arith, true, List, [], ◌∷◌, All, ◌==◌, ==_iff, Bool-cases, inl, inr,
  length, if◌then◌else◌,
}
use tabulark.Protocol.Actions.{contains}
use tabulark.Protocol.Actions.Exact.{Distinct}

abbrev IsIn : List ℕ → ℕ → Type 0
IsIn l i = contains i l ≡ true

-- The list without the first `i`.
erase : ℕ → List ℕ → List ℕ
erase i [] = []
erase i (j ∷ l) = let rest = j ∷ erase i l in if i == j then l else rest

length-erase : (i : ℕ) (l : List ℕ) → IsIn l i → length (erase i l) + 1 ≡ length l
unfolding erase
length-erase i [] h = cc
length-erase i (j ∷ l) h = ground (arith, length-erase i l)

erase-contains : (i j : ℕ) (l : List ℕ) → j ≢ i → IsIn l j → IsIn (erase i l) j
unfolding erase
erase-contains i j [] n h = h
erase-contains i j (k ∷ l) n h = ground (arith, erase-contains i j l n)

-- What is in a list is `i` or in the list without it.
contains-erase : (i : ℕ) (P : ℕ → Type 0) (l : List ℕ) → P i → All P (erase i l) → All P l
unfolding erase
contains-erase i P [] p h = tt
contains-erase i P (j ∷ l) p h = elim (Bool-cases (i == j)) [
  | inl e ↦ (subst P ((==_iff i j).0 e) p, rw e at h)
  | inr e ↦ let k = rw e at h in (k.0, contains-erase i P l p k.1)
]

All-mono : (P Q : ℕ → Type 0) (l : List ℕ) → ((i : ℕ) → P i → Q i) → All P l → All Q l
All-mono P Q [] f h = tt
All-mono P Q (i ∷ l) f h = (f i h.0, All-mono P Q l f h.1)

erase-All :
    (i : ℕ) (xs ys : List ℕ) → All (λ j. j ≢ i) xs → All (IsIn ys) xs → All (IsIn (erase i ys)) xs
erase-All i [] ys n h = tt
erase-All i (j ∷ xs) ys n h = (erase-contains i j ys n.0 h.0, erase-All i xs ys n.1 h.1)

pub pigeonhole :
    (xs ys : List ℕ) → Distinct xs → length xs ≡ length ys → All (IsIn ys) xs → All (IsIn xs) ys
pigeonhole [] [] d e h = tt
pigeonhole [] (y ∷ ys) d e h = cc
pigeonhole (x ∷ xs) ys d e h = contains-erase x (IsIn (x ∷ xs)) ys (ground arith) (
    All-mono (IsIn xs) (IsIn (x ∷ xs)) (erase x ys) (λ i k. ground arith)
      (pigeonhole xs (erase x ys) d.1 (omega (arith, length-erase x ys h.0))
        (erase-All x xs ys d.0 h.1)))
