-- ===== src/Model/Layout/Within.antt =====
-- What the checks of one slice or bitmap (model.rs) accept: those that lie in the pool.
use tabulark.Base.{
  ℕ, zero, suc, ◌+◌, ◌*◌, ◌≤◌, ◌≡◌, ◌↔◌, refl, arith, List, [], ◌∷◌, Option, none, some, length,
  All, get_elem?, usize_max,
}
use tabulark.Error.{ok, seq_iff}
use tabulark.Model.Slices.{BatchBuffer, BufferSlice, BitmapSlice, byte_end}
use tabulark.Model.Layout.{validate_buffer, validate_bitmap}

-- The bytes of a vector are counted by a `usize`.
abbrev pub AreAddressable : List BatchBuffer → Type 0
AreAddressable = All (λ b. length b.bytes ≤ usize_max)

abbrev pub Fits : Option BatchBuffer → BufferSlice → Type 0
Fits none s = ⊥
Fits (some b) s = s.byte_offset + s.byte_length ≤ length b.bytes

-- A slice within its entry of the pool.
unfoldable pub IsWithin : List BatchBuffer → BufferSlice → Type 0
IsWithin buffers s = Fits (get_elem? buffers s.buffer_index) s

-- A bitmap within the pool that has the bits of `count` values.
unfoldable pub HasBits : List BatchBuffer → ℕ → BitmapSlice → Type 0
unfolding IsWithin
HasBits buffers count b =
    IsWithin buffers b.buffer × (b.bit_offset + count ≤ b.buffer.byte_length * 8)

abbrev pub OptionalAll {κ} : {A : Type 0} → (A → Type κ) → Option A → Type κ
OptionalAll P none = Unit
OptionalAll P (some a) = P a

All-get_elem? :
    (P : BatchBuffer → Type 0) (l : List BatchBuffer) (i : ℕ)
    → All P l
    → OptionalAll P (get_elem? l i)
All-get_elem? P [] i h = tt
All-get_elem? P (x ∷ l) zero h = h.0
All-get_elem? P (x ∷ l) (suc i) h = All-get_elem? P l i h.1

module _ (buffers : List BatchBuffer) (v : AreAddressable buffers) where
  pub validate_buffer-IsWithin :
      (s : BufferSlice) → (validate_buffer s buffers ≡ ok tt) ↔ IsWithin buffers s
  unfolding validate_buffer byte_end IsWithin
  validate_buffer-IsWithin s =
      go (get_elem? buffers s.buffer_index)
        (All-get_elem? (λ b. length b.bytes ≤ usize_max) buffers s.buffer_index v) refl
    where
      go :
          (o : Option BatchBuffer)
          → OptionalAll (λ b. length b.bytes ≤ usize_max) o
          → get_elem? buffers s.buffer_index ≡ o
          → (validate_buffer s buffers ≡ ok tt) ↔ Fits (get_elem? buffers s.buffer_index) s
      go none a e = rw e (λ h. ground arith, λ h. absurd h)
      go (some b) a e = rw e (λ h. ground arith, λ h. ground arith)

  -- A slice within the pool is no longer than an entry.
  IsWithin-le : (s : BufferSlice) → IsWithin buffers s → s.byte_length ≤ usize_max
  unfolding IsWithin
  IsWithin-le s h =
      go (get_elem? buffers s.buffer_index)
        (All-get_elem? (λ b. length b.bytes ≤ usize_max) buffers s.buffer_index v) h
    where
      go :
          (o : Option BatchBuffer)
          → OptionalAll (λ b. length b.bytes ≤ usize_max) o
          → Fits o s
          → s.byte_length ≤ usize_max
      go none a k = absurd k
      go (some b) a k = omega arith

  pub validate_bitmap-HasBits :
      (b : BitmapSlice) (count : ℕ)
      → (validate_bitmap b count buffers ≡ ok tt) ↔ HasBits buffers count b
  unfolding validate_bitmap HasBits
  validate_bitmap-HasBits b count =
      seq_iff (validate_buffer b.buffer buffers) (validate_buffer-IsWithin b.buffer) λ w.
        (λ h. ground (arith, IsWithin-le b.buffer w), λ h. ground (arith, IsWithin-le b.buffer w))
