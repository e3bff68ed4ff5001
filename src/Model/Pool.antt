-- ===== src/Model/Pool.antt =====
-- src/model.rs: the pool of byte buffers that the columns of a typed batch share, views into it,
-- and `intern_batch_buffer`, which finds a buffer again by a fingerprint of its bytes.
pub mod Interning
pub mod Refine
pub mod Reading
use Prim.Native.Nat.{bit_xor}
use tabulark.Base.{
  ℕ, ◌+◌, ◌*◌, ◌/◌, ◌%◌, ◌^◌, Bool, true, false, ◌&&◌, List, [], ◌∷◌, ◌++◌, Option, none, some,
  ◌==◌, if◌then◌else◌, length, get_elem?, try_from, u32_max, u64_max,
}
use tabulark.Text.{Bytes}
use tabulark.Error.{new, resource_limit, ok_or}
use tabulark.State.{M, get, modify, lift, ◌>>=◌, ◌>>◌}
use tabulark.Maps.{lookup}
use tabulark.Model.Slices.{BatchBuffer, BufferSlice, new_slice}

-- `u64::rotate_left`
abbrev pub rotate_left : ℕ → ℕ → ℕ
rotate_left n x = (x * 2 ^ n) % 2 ^ 64 + (x * 2 ^ n) / 2 ^ 64

-- The loop of the hash, from the hash so far.
unfoldable pub hash_from : ℕ → Bytes → ℕ
hash_from hash [] = hash
hash_from hash (b ∷ bytes) = hash_from ((bit_xor hash b * 0x0000_0100_0000_01b3) % 2 ^ 64) bytes

unfoldable pub batch_buffer_fingerprint : Bytes → ℕ
unfolding hash_from
batch_buffer_fingerprint bytes =
    bit_xor (hash_from 0xcbf2_9ce4_8422_2325 bytes) (rotate_left 32 (length bytes))

-- `buffer.data() == bytes.as_slice()`
abbrev pub bytes_eq : Bytes → Bytes → Bool
bytes_eq [] [] = true
bytes_eq (a ∷ xs) (b ∷ ys) = (a == b) && bytes_eq xs ys
bytes_eq _ _ = false

abbrev pub holds : Option BatchBuffer → Bytes → Bool
holds none bytes = false
holds (some buffer) bytes = bytes_eq buffer.bytes bytes

-- The search through the candidates of a fingerprint.
unfoldable pub find_candidate : List ℕ → List BatchBuffer → Bytes → Option ℕ
find_candidate [] buffers bytes = none
find_candidate (index ∷ candidates) buffers bytes =
    if holds (get_elem? buffers index) bytes
    then some index
    else find_candidate candidates buffers bytes

abbrev pub unwrap_or_empty : Option (List ℕ) → List ℕ
unwrap_or_empty none = []
unwrap_or_empty (some candidates) = candidates

-- `buffers_by_fingerprint.entry(fingerprint).or_default().push(index)`
unfoldable pub push_candidate : ℕ → ℕ → List (ℕ × List ℕ) → List (ℕ × List ℕ)
push_candidate fingerprint index [] = (fingerprint, index ∷ []) ∷ []
push_candidate fingerprint index ((k, candidates) ∷ m) =
    if k == fingerprint
    then (k, candidates ++ index ∷ []) ∷ m
    else (k, candidates) ∷ push_candidate fingerprint index m

-- What the conversion of a batch keeps while it interns buffers.
pub record Interner : Type 0 where
  pub buffers : List BatchBuffer
  pub buffers_by_fingerprint : List (ℕ × List ℕ)

unfoldable pub candidates_of : ℕ → Interner → List ℕ
candidates_of fingerprint s = unwrap_or_empty (lookup fingerprint s.buffers_by_fingerprint)

unfoldable pub add_buffer : ℕ → Bytes → Interner → Interner
unfolding push_candidate
add_buffer index bytes s = record {
  buffers = s.buffers ++ (record { bytes = bytes }) ∷ [];
  buffers_by_fingerprint =
      push_candidate (batch_buffer_fingerprint bytes) index s.buffers_by_fingerprint;
}

-- What happens to bytes that were found in the pool, or were not.
unfoldable pub settle_candidate : Option ℕ → Bytes → ℕ → M Interner BufferSlice
unfolding new_slice add_buffer
settle_candidate (some index) bytes count = lift (new_slice index 0 count)
settle_candidate none bytes count = do
  s ← get
  index ← lift (
      ok_or (try_from u32_max (length s.buffers))
        (new resource_limit "typed batch contains too many buffer-pool entries"))
  modify (add_buffer index bytes)
  lift (new_slice index 0 count)

unfoldable pub intern_batch_buffer : Bytes → M Interner BufferSlice
unfolding find_candidate candidates_of settle_candidate
intern_batch_buffer bytes = do
  count ← lift (
      ok_or (try_from u64_max (length bytes))
        (new resource_limit "typed batch buffer length exceeds the public range"))
  s ← get
  settle_candidate
      (find_candidate (candidates_of (batch_buffer_fingerprint bytes) s) s.buffers bytes) bytes
      count
