-- ===== src/Model/Convert/Endian.antt =====
-- The little-endian offsets of a typed column (model.rs): four bytes for each, which read back.
use tabulark.Base.{
  ℕ, ◌+◌, ◌*◌, ◌/◌, ◌%◌, ◌^◌, ◌≤◌, ◌≡◌, refl, arith, List, [], ◌∷◌, All, u32_max, ap,
}
use tabulark.Text.{Bytes}
use tabulark.Model.Convert.{to_le_bytes, offset_bytes}

-- The numbers of consecutive little-endian words.
unfoldable pub read_words : Bytes → List ℕ
read_words (a ∷ b ∷ c ∷ d ∷ bytes) = (a + 2 ^ 8 * b + 2 ^ 16 * c + 2 ^ 24 * d) ∷ read_words bytes
read_words _ = []

word-to_le_bytes :
    (n : ℕ)
    → n ≤ u32_max
    → n % 256
        + 2 ^ 8 * ((n / 2 ^ 8) % 256)
        + 2 ^ 16 * ((n / 2 ^ 16) % 256)
        + 2 ^ 24 * ((n / 2 ^ 24) % 256)
      ≡ n
word-to_le_bytes n h = omega arith

-- The encoded offsets of a column read back, if each of them is a `u32`.
pub read_words-offset_bytes :
    (offsets : List ℕ)
    → All (λ o. o ≤ u32_max) offsets
    → read_words (offset_bytes offsets) ≡ offsets
unfolding read_words offset_bytes to_le_bytes
read_words-offset_bytes [] h = refl
read_words-offset_bytes (o ∷ offsets) h =
    rw (word-to_le_bytes o h.0) (ap (◌∷◌ o) (read_words-offset_bytes offsets h.1))
