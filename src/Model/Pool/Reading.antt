-- ===== src/Model/Pool/Reading.antt =====
-- Reading back what `intern_batch_buffer` (model.rs) put into the pool.
use tabulark.Base.{
  ℕ, ◌+◌, ◌≤◌, ◌≡◌, refl, sym, ap, ◌∙◌, List, [], ◌∷◌, ◌++◌, Option, none, some, arith, length,
  get_elem?, get_elem?-append, get_elem?-length, length-append, u32_max, u64_max, leb, le→leb,
  if◌then◌else◌, take,
}
use mathlib.Core.List.{append-nil, append_assoc}
use tabulark.Text.{Bytes}
use tabulark.Error.{ok}
use tabulark.State.{Outcome, done, fail, state_of, result_of, monad}
use tabulark.Model.Range.{max_safe_integer}
use tabulark.Model.Strings.{slice}
use tabulark.Model.Slices.{BatchBuffer, BufferSlice, new_slice}
use tabulark.Model.Pool.{Interner, intern_batch_buffer}
use tabulark.Model.Pool.Interning.{IsInterned, buffer_of, position, position-some}
use tabulark.Model.Pool.Refine.{Refines, settle_place, intern_plain, intern_batch_buffer-Refines}

abbrev pub read_buffer : Option BatchBuffer → BufferSlice → Option Bytes
read_buffer none s = none
read_buffer (some b) s =
    if leb (s.byte_offset + s.byte_length) (length b.bytes)
    then some (slice s.byte_offset (s.byte_offset + s.byte_length) b.bytes)
    else none

-- What a receiver of the pool reads through a slice.
unfoldable pub read : List BatchBuffer → BufferSlice → Option Bytes
read buffers s = read_buffer (get_elem? buffers s.buffer_index) s

-- A slice that is a whole entry of the pool.
pub record IsWhole (buffers : List BatchBuffer) (bytes : Bytes) (s : BufferSlice) : Type 0 where
  pub start : s.byte_offset ≡ 0
  pub count : s.byte_length ≡ length bytes
  pub entry : get_elem? buffers s.buffer_index ≡ some (buffer_of bytes)

take-all : (bytes : Bytes) → take (length bytes) bytes ≡ bytes
take-all [] = refl
take-all (b ∷ bytes) = ap (◌∷◌ b) (take-all bytes)

pub read-IsWhole :
    (buffers : List BatchBuffer) (bytes : Bytes) (s : BufferSlice)
    → IsWhole buffers bytes s
    → read buffers s ≡ some bytes
unfolding read
read-IsWhole buffers bytes s w = rw (w.entry, w.start, w.count) ground (arith, take-all bytes)

-- The pool with at most `n` entries more at its end.
pub record Grown (n : ℕ) (before after : List BatchBuffer) : Type 0 where
  pub more : List BatchBuffer
  pub grown : after ≡ before ++ more
  pub few : length more ≤ n

pub Grown-refl : (buffers : List BatchBuffer) → Grown 0 buffers buffers
Grown-refl buffers = record { more = []; grown = sym (append-nil buffers); few = omega arith }

pub Grown-trans :
    {n m : ℕ} {a b c : List BatchBuffer} → Grown n a b → Grown m b c → Grown (n + m) a c
Grown-trans {n} {m} {a} {b} {c} g h = record {
  more = g.more ++ h.more;
  grown = h.grown ∙ ap (λ l. l ++ h.more) g.grown ∙ append_assoc a g.more h.more;
  few = rw (length-append g.more h.more) (omega (arith, g.few, h.few));
}

pub Grown-length : {n : ℕ} {a b : List BatchBuffer} → Grown n a b → length b ≤ length a + n
Grown-length {n} {a} {b} g = rw (g.grown, length-append a g.more) (omega (arith, g.few))

-- More entries at the end of the pool change nothing.
pub IsWhole-Grown :
    {n : ℕ} {a b : List BatchBuffer} {bytes : Bytes} {s : BufferSlice}
    → Grown n a b
    → IsWhole a bytes s
    → IsWhole b bytes s
IsWhole-Grown {n} {a} {b} {bytes} {s} g w = record {
  start = w.start;
  count = w.count;
  entry = rw g.grown (get_elem?-append a g.more s.buffer_index (buffer_of bytes) w.entry);
}

-- What a success leaves behind.
pub record Interned (bytes : Bytes) (before after : List BatchBuffer) (s : BufferSlice)
    : Type 0 where
  pub grown : Grown 1 before after
  pub whole : IsWhole after bytes s

abbrev whole_slice : ℕ → Bytes → BufferSlice
whole_slice i bytes = record { buffer_index = i; byte_offset = 0; byte_length = length bytes }

new_slice-whole :
    (i : ℕ) (bytes : Bytes)
    → length bytes ≤ max_safe_integer
    → new_slice i 0 (length bytes) ≡ ok (whole_slice i bytes)
unfolding new_slice
new_slice-whole i bytes fits = ground arith

settle_place-Interned :
    (o : Option ℕ) (bytes : Bytes) (pool : List BatchBuffer)
    → length bytes ≤ max_safe_integer
    → length pool ≤ u32_max
    → position bytes pool ≡ o
    → (s : BufferSlice) × (after : List BatchBuffer) × (settle_place o bytes (length bytes) pool
        ≡ done s after)
      × Interned bytes pool after s
unfolding settle_place monad
settle_place-Interned (some i) bytes pool fits room e = (
  whole_slice i bytes,
  pool,
  rw (new_slice-whole i bytes fits) refl,
  record {
    grown = record { more = []; grown = sym (append-nil pool); few = omega arith };
    whole = record { start = refl; count = refl; entry = position-some bytes pool i e };
  },
)
settle_place-Interned none bytes pool fits room e = (
  whole_slice (length pool) bytes,
  pool ++ buffer_of bytes ∷ [],
  rw (le→leb (length pool) u32_max room, new_slice-whole (length pool) bytes fits) refl,
  record {
    grown = record { more = buffer_of bytes ∷ []; grown = refl; few = omega arith };
    whole = record {
      start = refl;
      count = refl;
      entry = get_elem?-length pool (buffer_of bytes) [];
    };
  },
)

intern_plain-Interned :
    (bytes : Bytes) (pool : List BatchBuffer)
    → length bytes ≤ max_safe_integer
    → length pool ≤ u32_max
    → (s : BufferSlice) × (after : List BatchBuffer) × (intern_plain bytes pool ≡ done s after)
      × Interned bytes pool after s
unfolding intern_plain monad
intern_plain-Interned bytes pool fits room =
    rw (le→leb (length bytes) u64_max (omega arith))
      (settle_place-Interned (position bytes pool) bytes pool fits room refl)

-- A success of the search is a success of the code.
refined_done :
    (o : Outcome Interner BufferSlice) (p : Outcome (List BatchBuffer) BufferSlice)
    (s : BufferSlice) (after : List BatchBuffer)
    → Refines o p
    → p ≡ done s after
    → (t : Interner) × (o ≡ done s t) × (t.buffers ≡ after) × IsInterned t
refined_done (done a t) p s after r e =
    let same = r.same_result ∙ ap result_of e in
    (t, ap (λ x. done x t) (ground arith), r.same_buffers ∙ ap state_of e, r.in_order)
refined_done (fail x t) p s after r e = let same = r.same_result ∙ ap result_of e in cc

-- What interning does within its bounds.
pub intern_batch_buffer-Interned :
    (bytes : Bytes) (s : Interner)
    → IsInterned s
    → length bytes ≤ max_safe_integer
    → length s.buffers ≤ u32_max
    → (t : BufferSlice) × (s' : Interner) × (intern_batch_buffer bytes s ≡ done t s')
      × Interned bytes s.buffers s'.buffers t
      × IsInterned s'
intern_batch_buffer-Interned bytes s v fits room =
    let (t, after, e, k) = intern_plain-Interned bytes s.buffers fits room in
    let (s', d, same, order) =
      refined_done (intern_batch_buffer bytes s) (intern_plain bytes s.buffers) t after
        (intern_batch_buffer-Refines bytes s v) e in
    (t, s', d, rw same k, order)
