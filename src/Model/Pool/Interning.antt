-- ===== src/Model/Pool/Interning.antt =====
-- The pool that `intern_batch_buffer` keeps (model.rs): no bytes twice, and each buffer among the
-- candidates of its fingerprint.
use tabulark.Base.{
  ℕ, zero, suc, ◌≡◌, ◌≢◌, ◌⊎◌, inl, inr, refl, sym, ap, subst, ◌∙◌, arith, true, false, List, [],
  ◌∷◌, ◌++◌, Option, none, some, ◌==◌, ==_iff, Bool-cases, length, get_elem?, get_elem?-append,
  get_elem?-length, if◌then◌else◌,
}
use mathlib.Core.Option.{some-injective}
use tabulark.Text.{Bytes}
use tabulark.Maps.{lookup}
use tabulark.Model.Slices.{BatchBuffer}
use tabulark.Model.Pool.{
  Interner, candidates_of, add_buffer, push_candidate, find_candidate, batch_buffer_fingerprint,
  bytes_eq, holds, unwrap_or_empty,
}

abbrev pub buffer_of : Bytes → BatchBuffer
buffer_of bytes = record { bytes = bytes }

pub Among : ℕ → List ℕ → Type 0
Among i candidates = (k : ℕ) × (get_elem? candidates k ≡ some i)

pub record IsInterned (s : Interner) : Type 0 where
  pub distinct :
      (i j : ℕ) (b : BatchBuffer)
      → get_elem? s.buffers i ≡ some b
      → get_elem? s.buffers j ≡ some b
      → i ≡ j
  pub indexed :
      (i : ℕ) (b : BatchBuffer)
      → get_elem? s.buffers i ≡ some b
      → Among i (candidates_of (batch_buffer_fingerprint b.bytes) s)

abbrev pub next_place : Option ℕ → Option ℕ
next_place none = none
next_place (some i) = some (suc i)

-- The first place of some bytes in a pool.
unfoldable pub position : Bytes → List BatchBuffer → Option ℕ
position bytes [] = none
position bytes (b ∷ buffers) =
    let rest = next_place (position bytes buffers) in
    if bytes_eq b.bytes bytes then some 0 else rest

bytes_eq→eq : (a b : Bytes) → bytes_eq a b ≡ true → a ≡ b
bytes_eq→eq [] [] h = refl
bytes_eq→eq [] (y ∷ b) h = cc
bytes_eq→eq (x ∷ a) [] h = cc
bytes_eq→eq (x ∷ a) (y ∷ b) h = ground (arith, bytes_eq→eq a b, (==_iff x y).0)

pub bytes_eq_self : (a : Bytes) → bytes_eq a a ≡ true
bytes_eq_self [] = refl
bytes_eq_self (x ∷ a) = ground (arith, bytes_eq_self a)

holds→eq :
    (o : Option BatchBuffer) (bytes : Bytes) → holds o bytes ≡ true → o ≡ some (buffer_of bytes)
holds→eq none bytes h = cc
holds→eq (some b) bytes h = ap (λ x. some (buffer_of x)) (bytes_eq→eq b.bytes bytes h)

find_candidate-some :
    (candidates : List ℕ) (buffers : List BatchBuffer) (bytes : Bytes) (i : ℕ)
    → find_candidate candidates buffers bytes ≡ some i
    → get_elem? buffers i ≡ some (buffer_of bytes)
unfolding find_candidate
find_candidate-some [] buffers bytes i h = cc
find_candidate-some (c ∷ candidates) buffers bytes i h =
    elim (Bool-cases (holds (get_elem? buffers c) bytes)) [
      | inl e ↦
          subst (λ k. get_elem? buffers k ≡ some (buffer_of bytes)) (some-injective c i (rw e at h))
            (holds→eq (get_elem? buffers c) bytes e)
      | inr e ↦ find_candidate-some candidates buffers bytes i (rw e at h)
    ]

find_candidate-none :
    (candidates : List ℕ) (buffers : List BatchBuffer) (bytes : Bytes) (i : ℕ)
    → find_candidate candidates buffers bytes ≡ none
    → Among i candidates
    → get_elem? buffers i ≢ some (buffer_of bytes)
unfolding find_candidate Among
find_candidate-none [] buffers bytes i h (k, e) = λ _. cc
find_candidate-none (c ∷ candidates) buffers bytes i h (zero, e) =
    λ g. ground (arith, some-injective c i e, bytes_eq_self bytes)
find_candidate-none (c ∷ candidates) buffers bytes i h (suc k, e) =
    elim (Bool-cases (holds (get_elem? buffers c) bytes)) [
      | inl t ↦ cc
      | inr t ↦ find_candidate-none candidates buffers bytes i (rw t at h) (k, e)
    ]

pub position-some :
    (bytes : Bytes) (buffers : List BatchBuffer) (i : ℕ)
    → position bytes buffers ≡ some i
    → get_elem? buffers i ≡ some (buffer_of bytes)
unfolding position
position-some bytes [] i h = cc
position-some bytes (b ∷ buffers) i h = elim (Bool-cases (bytes_eq b.bytes bytes)) [
  | inl t ↦
      subst (λ k. get_elem? (b ∷ buffers) k ≡ some (buffer_of bytes))
        (some-injective 0 i (rw t at h))
        (ap (λ x. some (buffer_of x)) (bytes_eq→eq b.bytes bytes t))
  | inr t ↦ go (position-some bytes buffers) (position bytes buffers) refl (rw t at h)
]
  where
    go :
        ((j : ℕ) → position bytes buffers ≡ some j → get_elem? buffers j ≡ some (buffer_of bytes))
        → (o : Option ℕ) → position bytes buffers ≡ o
        → next_place o ≡ some i
        → get_elem? (b ∷ buffers) i ≡ some (buffer_of bytes)
    go before none e k = cc
    go before (some j) e k =
        subst (λ n. get_elem? (b ∷ buffers) n ≡ some (buffer_of bytes)) (some-injective (suc j) i k)
          (before j e)

pub position-none :
    (bytes : Bytes) (buffers : List BatchBuffer) (i : ℕ)
    → position bytes buffers ≡ none
    → get_elem? buffers i ≢ some (buffer_of bytes)
unfolding position
position-none bytes [] i h = λ g. cc
position-none bytes (b ∷ buffers) i h = elim (Bool-cases (bytes_eq b.bytes bytes)) [
  | inl t ↦ λ g. cc
  | inr t ↦ λ g. go (position-none bytes buffers) i (position bytes buffers) refl t (rw t at h) g
]
  where
    go :
        ((j : ℕ) → position bytes buffers ≡ none → get_elem? buffers j ≢ some (buffer_of bytes))
        → (i : ℕ) (o : Option ℕ) → position bytes buffers ≡ o
        → bytes_eq b.bytes bytes ≡ false
        → next_place o ≡ none
        → get_elem? (b ∷ buffers) i ≡ some (buffer_of bytes)
        → ⊥
    go before zero o e t k g =
        ground (arith, some-injective b (buffer_of bytes) g, bytes_eq_self bytes)
    go before (suc i) none e t k g = before i e g
    go before (suc i) (some j) e t k g = cc

-- In a pool in order the fingerprints lead to where a search of the whole pool does.
pub find_candidate-position :
    (s : Interner) (bytes : Bytes)
    → IsInterned s
    → find_candidate (candidates_of (batch_buffer_fingerprint bytes) s) s.buffers bytes
      ≡ position bytes s.buffers
find_candidate-position s bytes v =
    go (find_candidate candidates s.buffers bytes) (position bytes s.buffers) refl refl
  where
    candidates : List ℕ
    candidates = candidates_of (batch_buffer_fingerprint bytes) s

    go :
        (o p : Option ℕ)
        → find_candidate candidates s.buffers bytes ≡ o
        → position bytes s.buffers ≡ p
        → o ≡ p
    go none none e f = refl
    go none (some j) e f =
        let at = position-some bytes s.buffers j f in
        absurd
          (find_candidate-none candidates s.buffers bytes j e (v.indexed j (buffer_of bytes) at) at)
    go (some i) none e f =
        absurd
          (position-none bytes s.buffers i f (find_candidate-some candidates s.buffers bytes i e))
    go (some i) (some j) e f = ap some (
        v.distinct i j (buffer_of bytes) (find_candidate-some candidates s.buffers bytes i e)
          (position-some bytes s.buffers j f))

get_elem?-snoc :
    (xs : List BatchBuffer) (x y : BatchBuffer) (i : ℕ)
    → get_elem? (xs ++ x ∷ []) i ≡ some y
    → (get_elem? xs i ≡ some y) ⊎ ((i ≡ length xs) × (x ≡ y))
get_elem?-snoc [] x y zero h = inr (refl, some-injective x y h)
get_elem?-snoc [] x y (suc i) h = cc
get_elem?-snoc (a ∷ xs) x y zero h = inl h
get_elem?-snoc (a ∷ xs) x y (suc i) h = elim (get_elem?-snoc xs x y i h) [
  | inl e ↦ inl e
  | inr e ↦ inr (ap suc e.0, e.1)
]

Among-snoc : (i j : ℕ) (l : List ℕ) → Among i l → Among i (l ++ j ∷ [])
unfolding Among
Among-snoc i j l (k, e) = (k, get_elem?-append l (j ∷ []) k i e)

push_candidate-new :
    (f i : ℕ) (m : List (ℕ × List ℕ)) → Among i (unwrap_or_empty (lookup f (push_candidate f i m)))
unfolding push_candidate Among
push_candidate-new f i [] = (0, ground arith)
push_candidate-new f i ((k, c) ∷ m) = elim (Bool-cases (k == f)) [
  | inl e ↦ rw (e, e) (length c, get_elem?-length c i [])
  | inr e ↦ rw (e, e) (push_candidate-new f i m)
]

push_candidate-old :
    (f g i j : ℕ) (m : List (ℕ × List ℕ))
    → Among j (unwrap_or_empty (lookup g m))
    → Among j (unwrap_or_empty (lookup g (push_candidate f i m)))
unfolding push_candidate Among
push_candidate-old f g i j [] h = absurd (none_among h.0 h.1)
  where
    none_among : (k : ℕ) → get_elem? {A = ℕ} [] k ≡ some j → ⊥
    none_among k e = cc
push_candidate-old f g i j ((k, c) ∷ m) h = elim (Bool-cases (k == f)) [
  | inl e ↦ elim (Bool-cases (k == g)) [
    | inl d ↦ rw (e, d) (Among-snoc j i c (rw d at h))
    | inr d ↦ rw (e, d) (rw d at h)
  ]
  | inr e ↦ elim (Bool-cases (k == g)) [
    | inl d ↦ rw (e, d) (rw d at h)
    | inr d ↦ rw (e, d) (push_candidate-old f g i j m (rw d at h))
  ]
]

-- A buffer that the pool does not hold yet comes last.
pub add_buffer-IsInterned :
    (s : Interner) (bytes : Bytes)
    → IsInterned s
    → position bytes s.buffers ≡ none
    → IsInterned (add_buffer (length s.buffers) bytes s)
unfolding add_buffer candidates_of
add_buffer-IsInterned s bytes v new = record {
  distinct = λ i j b g h.
      both i j b (get_elem?-snoc s.buffers (buffer_of bytes) b i g)
        (get_elem?-snoc s.buffers (buffer_of bytes) b j h);
  indexed = λ i b g. found i b (get_elem?-snoc s.buffers (buffer_of bytes) b i g);
}
  where
    both :
        (i j : ℕ) (b : BatchBuffer)
        → (get_elem? s.buffers i ≡ some b) ⊎ ((i ≡ length s.buffers) × (buffer_of bytes ≡ b))
        → (get_elem? s.buffers j ≡ some b) ⊎ ((j ≡ length s.buffers) × (buffer_of bytes ≡ b))
        → i ≡ j
    both i j b (inl g) (inl h) = v.distinct i j b g h
    both i j b (inl g) (inr h) =
        absurd (position-none bytes s.buffers i new (g ∙ ap some (sym h.1)))
    both i j b (inr g) (inl h) =
        absurd (position-none bytes s.buffers j new (h ∙ ap some (sym g.1)))
    both i j b (inr g) (inr h) = g.0 ∙ sym h.0

    found :
        (i : ℕ) (b : BatchBuffer)
        → (get_elem? s.buffers i ≡ some b) ⊎ ((i ≡ length s.buffers) × (buffer_of bytes ≡ b))
        → Among i (
            candidates_of
              (batch_buffer_fingerprint b.bytes)
              (add_buffer (length s.buffers) bytes s))
    found i b (inl g) =
        push_candidate-old (batch_buffer_fingerprint bytes) (batch_buffer_fingerprint b.bytes)
          (length s.buffers) i s.buffers_by_fingerprint (v.indexed i b g)
    found i b (inr g) =
        rw (g.0, sym g.1)
          (push_candidate-new (batch_buffer_fingerprint bytes) (length s.buffers)
            s.buffers_by_fingerprint)
