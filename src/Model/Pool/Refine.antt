-- ===== src/Model/Pool/Refine.antt =====
-- What `intern_batch_buffer` (model.rs) promises without its fingerprints: a search of the whole
-- pool, and a new entry at its end.
use tabulark.Base.{
  ℕ, ◌≡◌, refl, List, [], ◌∷◌, ◌++◌, Option, none, some, length, try_from, u32_max, u64_max,
  Bool-cases, inl, inr, leb,
}
use tabulark.Text.{Bytes}
use tabulark.Error.{new, resource_limit, ok_or, Result, ok, err}
use tabulark.State.{M, Outcome, get, modify, lift, ◌>>=◌, ◌>>◌, state_of, result_of, monad}
use tabulark.Model.Slices.{BatchBuffer, BufferSlice, new_slice}
use tabulark.Model.Pool.{Interner, intern_batch_buffer, settle_candidate, add_buffer}
use tabulark.Model.Pool.Interning.{
  IsInterned, buffer_of, position, find_candidate-position, add_buffer-IsInterned,
}

unfoldable pub settle_place : Option ℕ → Bytes → ℕ → M (List BatchBuffer) BufferSlice
unfolding new_slice
settle_place (some index) bytes count = lift (new_slice index 0 count)
settle_place none bytes count = do
  buffers ← get
  index ← lift (
      ok_or (try_from u32_max (length buffers))
        (new resource_limit "typed batch contains too many buffer-pool entries"))
  modify (λ pool. pool ++ buffer_of bytes ∷ [])
  lift (new_slice index 0 count)

unfoldable pub intern_plain : Bytes → M (List BatchBuffer) BufferSlice
unfolding position settle_place
intern_plain bytes = do
  count ← lift (
      ok_or (try_from u64_max (length bytes))
        (new resource_limit "typed batch buffer length exceeds the public range"))
  buffers ← get
  settle_place (position bytes buffers) bytes count

-- Both answer alike and leave the same buffers, and the fingerprints stay in order.
pub record Refines (o : Outcome Interner BufferSlice) (p : Outcome (List BatchBuffer) BufferSlice)
    : Type 0 where
  pub same_result : result_of o ≡ result_of p
  pub same_buffers : (state_of o).buffers ≡ state_of p
  pub in_order : IsInterned (state_of o)

lift-Refines :
    (r : Result BufferSlice) (s : Interner) → IsInterned s → Refines (lift r s) (lift r s.buffers)
unfolding monad
lift-Refines (ok slice) s v = record { same_result = refl; same_buffers = refl; in_order = v }
lift-Refines (err e) s v = record { same_result = refl; same_buffers = refl; in_order = v }

settle-Refines :
    (o : Option ℕ) (bytes : Bytes) (count : ℕ) (s : Interner)
    → IsInterned s
    → position bytes s.buffers ≡ o
    → Refines (settle_candidate o bytes count s) (settle_place o bytes count s.buffers)
unfolding settle_candidate settle_place monad add_buffer
settle-Refines (some i) bytes count s v e = lift-Refines (new_slice i 0 count) s v
settle-Refines none bytes count s v e = elim (Bool-cases (leb (length s.buffers) u32_max)) [
  | inl t ↦ rw t (
      lift-Refines (new_slice (length s.buffers) 0 count) (add_buffer (length s.buffers) bytes s)
        (add_buffer-IsInterned s bytes v e))
  | inr t ↦ rw t (record { same_result = refl; same_buffers = refl; in_order = v })
]

-- Interning in a pool in order refines a search of the whole pool: it gives the same slice or the
-- same failure, leaves the same buffers, and keeps the pool in order.
pub intern_batch_buffer-Refines :
    (bytes : Bytes) (s : Interner)
    → IsInterned s
    → Refines (intern_batch_buffer bytes s) (intern_plain bytes s.buffers)
unfolding intern_batch_buffer intern_plain monad
intern_batch_buffer-Refines bytes s v = elim (Bool-cases (leb (length bytes) u64_max)) [
  | inl t ↦
      rw (t, find_candidate-position s bytes v)
        (settle-Refines (position bytes s.buffers) bytes (length bytes) s v refl)
  | inr t ↦ rw t (record { same_result = refl; same_buffers = refl; in_order = v })
]
