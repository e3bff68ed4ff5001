-- ===== src/Excel/Reader/Seek.antt =====
-- Where `SparseReader` seeks to (range.rs).
use tabulark.Base.{
  ℕ, ◌+◌, ◌≤◌, ◌≡◌, ◌↔◌, inl, inr, refl, sym, ap, subst, arith, ltb, Bool-cases, u64_max, ℤ, pos,
  negsuc, le→not-ltb,
}
use tabulark.Excel.Reader.{
  SparseReader, IoResult, io_ok, io_err, seek, seek_offset, checked_signed_offset, SeekFrom,
  from_start, from_end, from_current,
}

abbrev pub IsOffset : ℕ → ℤ → ℕ → Type 0
IsOffset base (pos delta) n = n ≡ base + delta
IsOffset base (negsuc delta) n = n + delta + 1 ≡ base

-- The place that a seek means.
abbrev pub IsTarget : SparseReader → SeekFrom → ℕ → Type 0
IsTarget s (from_start value) n = n ≡ value
IsTarget s (from_end delta) n = IsOffset s.indexed.source_length delta n
IsTarget s (from_current delta) n = IsOffset s.position delta n

io_ok-injective : {A : Type 0} (a b : A) → io_ok a ≡ io_ok b → a ≡ b
io_ok-injective a b e = ap (value_of a) e
  where
    value_of : {A : Type 0} → A → IoResult A → A
    value_of default (io_ok value) = value
    value_of default (io_err failure) = default

checked_signed_offset-exact :
    (base : ℕ) (delta : ℤ) (n : ℕ)
    → n ≤ u64_max
    → (checked_signed_offset base delta ≡ io_ok n) ↔ IsOffset base delta n
unfolding checked_signed_offset
checked_signed_offset-exact base (pos d) n h = (λ e. ground arith, λ e. ground arith)
checked_signed_offset-exact base (negsuc d) n h = (λ e. ground arith, λ e. ground arith)

seek_offset-exact :
    (s : SparseReader) (target : SeekFrom) (n : ℕ)
    → n ≤ u64_max
    → (seek_offset s target ≡ io_ok n) ↔ IsTarget s target n
unfolding seek_offset
seek_offset-exact s (from_start value) n h =
    (λ e. sym (io_ok-injective value n e), λ e. ap io_ok (sym e))
seek_offset-exact s (from_end delta) n h =
    checked_signed_offset-exact s.indexed.source_length delta n h
seek_offset-exact s (from_current delta) n h = checked_signed_offset-exact s.position delta n h

abbrev pub moved : SparseReader → ℕ → SparseReader
moved s n = record s { position = n }

-- A seek is accepted exactly if the place that it means lies in the source or at its end, however
-- far its offset reaches, and then answers that place and moves the reader there.
pub seek-exact :
    (s : SparseReader) (target : SeekFrom) (answer : ℕ × SparseReader)
    → s.indexed.source_length ≤ u64_max
    → (seek s target ≡ io_ok answer) ↔ (
        IsTarget s target answer.0
        × (answer.0 ≤ s.indexed.source_length)
        × (moved s answer.0 ≡ answer.1))
unfolding seek
seek-exact s target answer u = (go (seek_offset s target) refl, back)
  where
    Accepted : ℕ × SparseReader → Type 0
    Accepted a = IsTarget s target a.0 × (a.0 ≤ s.indexed.source_length) × (moved s a.0 ≡ a.1)

    go :
        (o : IoResult ℕ) → seek_offset s target ≡ o → seek s target ≡ io_ok answer → Accepted answer
    go (io_err failure) e h = let q = rw e at h in cc
    go (io_ok n) e h = elim (Bool-cases (ltb s.indexed.source_length n)) [
      | inl k ↦ let q = rw (e, k) at h in cc
      | inr k ↦
          subst Accepted (io_ok-injective (n, moved s n) answer (rw (e, k) at h))
            ((seek_offset-exact s target n (ground arith)).0 e, ground arith, refl)
    ]

    back : Accepted answer → seek s target ≡ io_ok answer
    back (t, le, w) =
        rw
          (
            (seek_offset-exact s target answer.0 (omega arith)).1 t,
            le→not-ltb s.indexed.source_length answer.0 le,
          )
          (ap (λ r. io_ok (answer.0, r)) w)
