-- ===== src/Maps.antt =====
-- A map from handles, as an association list whose order nothing depends on: the `HashMap`s of
-- src/runtime.rs.
use tabulark.Base.{
  ℕ, Bool, true, Option, if◌then◌else◌, ◌+◌, ◌≤◌, ◌<◌, ◌≡◌, refl, ap, ◌∙◌, false, List, [], ◌∷◌,
  none, some, arith, length, All, ◌==◌, ==_iff, Bool-cases, inl, inr, subst,
}
use mathlib.Core.Option.{some-injective}

-- `HashMap::get`, `insert` and `remove` for handles.
module _ {V : Type 0} where
  abbrev pub lookup : ℕ → List (ℕ × V) → Option V
  lookup h [] = none
  lookup h ((k, v) ∷ m) = if k == h then some v else lookup h m

  abbrev pub remove : ℕ → List (ℕ × V) → List (ℕ × V)
  remove h [] = []
  remove h ((k, v) ∷ m) = if k == h then remove h m else (k, v) ∷ remove h m

  -- A handle that is there keeps its place.
  abbrev pub replace : ℕ → V → List (ℕ × V) → List (ℕ × V)
  replace h w [] = []
  replace h w ((k, v) ∷ m) = if k == h then (h, w) ∷ replace h w m else (k, v) ∷ replace h w m

  abbrev pub is_some : Option V → Bool
  is_some none = false
  is_some (some v) = true

  -- Every handle is below `n`.
  abbrev pub AreBelow : ℕ → List (ℕ × V) → Type 0
  AreBelow n = All (λ p. p.0 < n)

  pub AreBelow-mono : (n m : ℕ) (l : List (ℕ × V)) → n ≤ m → AreBelow n l → AreBelow m l
  AreBelow-mono n m [] le h = tt
  AreBelow-mono n m (p ∷ l) le h = (omega arith, AreBelow-mono n m l le h.1)

  pub All-remove : (P : ℕ × V → Type 0) (k : ℕ) (l : List (ℕ × V)) → All P l → All P (remove k l)
  All-remove P k [] h = tt
  All-remove P k ((j, v) ∷ l) h = elim (Bool-cases (j == k)) [
    | inl e ↦ rw e (All-remove P k l h.1)
    | inr e ↦ rw e (h.0, All-remove P k l h.1)
  ]

  pub length-remove : (k : ℕ) (l : List (ℕ × V)) → length (remove k l) ≤ length l
  length-remove k [] = omega arith
  length-remove k ((j, v) ∷ l) = ground (arith, length-remove k l)

  pub length-remove_found :
      (k : ℕ) (l : List (ℕ × V)) (v : V) → lookup k l ≡ some v → length (remove k l) + 1 ≤ length l
  length-remove_found k [] v e = cc
  length-remove_found k ((j, w) ∷ l) v e =
      ground (arith, length-remove k l, length-remove_found k l v)

  pub length-replace : (k : ℕ) (w : V) (l : List (ℕ × V)) → length (replace k w l) ≡ length l
  length-replace k w [] = refl
  length-replace k w ((j, v) ∷ l) = ground (arith, length-replace k w l)

  pub replace-AreBelow :
      (n k : ℕ) (w : V) (l : List (ℕ × V)) → AreBelow n l → AreBelow n (replace k w l)
  replace-AreBelow n k w [] h = tt
  replace-AreBelow n k w ((j, v) ∷ l) h =
      ground (arith, replace-AreBelow n k w l h.1, (==_iff j k).0)

  pub lookup-replace :
      (i k : ℕ) (w : V) (l : List (ℕ × V))
      → is_some (lookup i (replace k w l)) ≡ is_some (lookup i l)
  lookup-replace i k w [] = refl
  lookup-replace i k w ((j, v) ∷ l) = ground (arith, lookup-replace i k w l)

  pub lookup-remove_ne :
      (i k : ℕ) (l : List (ℕ × V)) → (i == k) ≡ false → lookup i (remove k l) ≡ lookup i l
  lookup-remove_ne i k [] h = refl
  lookup-remove_ne i k ((j, v) ∷ l) h = ground (arith, lookup-remove_ne i k l h)

  pub lookup-remove_self : (k : ℕ) (l : List (ℕ × V)) → lookup k (remove k l) ≡ none
  lookup-remove_self k [] = refl
  lookup-remove_self k ((j, v) ∷ l) = ground (arith, lookup-remove_self k l)

  -- A predicate of every entry holds of the one that is found.
  pub All-lookup :
      (P : ℕ × V → Type 0) (k : ℕ) (l : List (ℕ × V)) (v : V)
      → All P l
      → lookup k l ≡ some v
      → P (k, v)
  All-lookup P k [] v h e = cc
  All-lookup P k ((j, w) ∷ l) v h e = elim (Bool-cases (j == k)) [
    | inl t ↦
        subst (λ p. P p)
          (ap (λ x. (x, w)) ((==_iff j k).0 t) ∙ ap (λ x. (k, x)) (some-injective w v (rw t at e)))
          h.0
    | inr t ↦ All-lookup P k l v h.1 (rw t at e)
  ]
