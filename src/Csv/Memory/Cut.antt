-- ===== src/Csv/Memory/Cut.antt =====
-- The bytes of a memory source cut into chunks (csv.rs).
use tabulark.Base.{
  ℕ, zero, suc, ◌+◌, ◌-◌, ◌≤◌, ◌<◌, ◌≡◌, inl, inr, refl, sym, ap, ◌∙◌, Bool, true, false, List, [],
  ◌∷◌, ◌++◌, All, arith, ◌==◌, ==_iff, Bool-cases, length, length-append, length-take, length-drop,
  drop, take-append-drop,
}
use tabulark.Text.{Bytes}
use tabulark.Model.Strings.{slice}

abbrev pub joined : List Bytes → Bytes
joined [] = []
joined (c ∷ cs) = c ++ joined cs

abbrev pub is_empty : List Bytes → Bool
is_empty [] = true
is_empty (c ∷ cs) = false

-- Bytes cut into chunks of one byte at least and of the given size at most.
pub record IsCut (size : ℕ) (bytes : Bytes) (chunks : List Bytes) : Type 0 where
  pub whole : joined chunks ≡ bytes
  pub sizes : All (λ c. (0 < length c) × (length c ≤ size)) chunks

drop-drop : (a b : ℕ) (bytes : Bytes) → drop a (drop b bytes) ≡ drop (b + a) bytes
drop-drop a zero bytes = ap (λ n. drop n bytes) {x = a} {y = 0 + a} (omega arith)
drop-drop a (suc b) [] = drop-nil a ∙ sym (drop-nil (suc b + a))
  where
    drop-nil : (n : ℕ) → drop {A = ℕ} n [] ≡ []
    drop-nil zero = refl
    drop-nil (suc n) = refl
drop-drop a (suc b) (x ∷ bytes) =
    drop-drop a b bytes
    ∙ ap (λ n. drop n (x ∷ bytes)) {x = suc (b + a)} {y = suc b + a} (omega arith)

pub length-slice :
    (from to : ℕ) (bytes : Bytes)
    → from ≤ to
    → to ≤ length bytes
    → length (slice from to bytes) ≡ to - from
length-slice from to bytes h k =
    omega (arith, length-take (to - from) (drop from bytes), length-drop from bytes)

-- A slice in front of what follows it.
pub slice-IsCut :
    (size from to : ℕ) (bytes : Bytes) (chunks : List Bytes)
    → from < to
    → to ≤ from + size
    → to ≤ length bytes
    → IsCut size (drop to bytes) chunks
    → IsCut size (drop from bytes) (slice from to bytes ∷ chunks)
slice-IsCut size from to bytes chunks lt le w c = record {
  whole =
      ap (◌++◌ (slice from to bytes)) (
        c.whole
        ∙ ap (λ n. drop n bytes) {x = to} {y = from + (to - from)} (omega arith)
        ∙ sym (drop-drop (to - from) from bytes))
      ∙ take-append-drop (to - from) (drop from bytes);
  sizes = (
    (
      omega (arith, length-slice from to bytes (omega arith) w),
      omega (arith, length-slice from to bytes (omega arith) w),
    ),
    c.sizes,
  );
}

pub nothing-IsCut :
    (size from : ℕ) (bytes : Bytes) → length bytes ≤ from → IsCut size (drop from bytes) []
nothing-IsCut size from bytes h = record {
  whole = sym (empty (drop from bytes) (omega (arith, length-drop from bytes)));
  sizes = tt;
}
  where
    empty : (l : Bytes) → length l ≡ 0 → l ≡ []
    empty [] e = refl
    empty (x ∷ l) e = absurd (omega (arith, e))

-- Nothing follows a slice exactly if it ends with the bytes.
pub last-slice :
    (size to : ℕ) (bytes : Bytes) (chunks : List Bytes)
    → to ≤ length bytes
    → IsCut size (drop to bytes) chunks
    → (to == length bytes) ≡ is_empty chunks
last-slice size to bytes [] w c =
    (==_iff to (length bytes)).1 (omega (arith, length-drop to bytes, ap length c.whole))
last-slice size to bytes (c ∷ cs) w k = elim (Bool-cases (to == length bytes)) [
  | inr e ↦ e
  | inl e ↦ absurd (
      omega (
        arith,
        length-drop to bytes,
        ap length k.whole,
        length-append c (joined cs),
        k.sizes.0,
        (==_iff to (length bytes)).0 e,
      ))
]
