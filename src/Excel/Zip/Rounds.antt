-- ===== src/Excel/Zip/Rounds.antt =====
-- The loops over the entries of a central directory and over their extra data have rounds enough
-- (range.rs).
use tabulark.Base.{
  ℕ, zero, suc, ◌+◌, ◌-◌, ◌≤◌, ◌<◌, ◌≡◌, arith, List, [], ◌∷◌, length, ltb, ◌==◌, inl, inr, Bool,
  Bool-cases, refl, ltb→lt, checked_add, usize_max, sym,
}
use tabulark.Text.{Bytes}
use tabulark.Error.{ok_or}
use tabulark.Excel.Zip.{ZipEntryIndex, zip_overflow, read_u16}
use tabulark.Excel.Zip.Ensures.{Ensures, Ensures-same, Ensures-any}
use tabulark.Excel.Zip.Extra.{extra_from, fits_in}
use tabulark.Excel.Zip.Directory.{parse_entry, has_name, entries_from}
use tabulark.Excel.Zip.Entries.{Parsed, parse_entry-Parsed}

-- More rounds than there are bytes left change nothing.
entries_from-rounds :
    (n m : ℕ) (bytes : Bytes) (source_length offset : ℕ) (entries : List ZipEntryIndex)
    → length bytes - offset < n
    → n ≤ m
    → entries_from n bytes source_length offset entries
      ≡ entries_from m bytes source_length offset entries
unfolding entries_from
entries_from-rounds zero m bytes source_length offset entries h le = absurd (omega arith)
entries_from-rounds (suc n) zero bytes source_length offset entries h le = absurd (omega arith)
entries_from-rounds (suc n) (suc m) bytes source_length offset entries h le =
    elim (Bool-cases (ltb offset (length bytes))) [
      | inr e ↦ rw e refl
      | inl e ↦ rw e (
          Ensures-same (Parsed source_length offset) (parse_entry bytes source_length offset) _ _
            (parse_entry-Parsed bytes source_length offset)
            λ r p. elim (Bool-cases (has_name r.0.name entries)) [
              | inl f ↦ rw f refl
              | inr f ↦ rw f (
                  entries_from-rounds n m bytes source_length r.1 (r.0 ∷ entries)
                    (omega (arith, p.1, ltb→lt offset (length bytes) e)) (omega arith))
            ])
    ]

-- The rounds that `parse_central_directory` takes are enough: with more of them the answer for the
-- entries is the same.
entries_from-enough :
    (n : ℕ) (bytes : Bytes) (source_length : ℕ)
    → suc (length bytes) ≤ n
    → entries_from n bytes source_length 0 []
      ≡ entries_from (suc (length bytes)) bytes source_length 0 []
entries_from-enough n bytes source_length h =
    sym (entries_from-rounds (suc (length bytes)) n bytes source_length 0 [] (omega arith) h)

field_end :
    (offset size : ℕ)
    → Ensures (λ last. offset < last) (ok_or (checked_add usize_max (offset + 4) size) zip_overflow)
unfolding Ensures
field_end offset size = ground arith

-- The same for the fields of the extra data of an entry.
extra_from-rounds :
    (n m : ℕ) (bytes : Bytes) (a b c : Bool) (offset : ℕ)
    → length bytes - offset < n
    → n ≤ m
    → extra_from n bytes a b c offset ≡ extra_from m bytes a b c offset
unfolding extra_from
extra_from-rounds zero m bytes a b c offset h le = absurd (omega arith)
extra_from-rounds (suc n) zero bytes a b c offset h le = absurd (omega arith)
extra_from-rounds (suc n) (suc m) bytes a b c offset h le =
    elim (Bool-cases (fits_in (checked_add usize_max offset 4) (length bytes))) [
      | inr e ↦ rw e refl
      | inl e ↦ rw e (
          Ensures-same _ (read_u16 bytes offset) _ _ (Ensures-any (read_u16 bytes offset)) λ id _.
            Ensures-same _ (read_u16 bytes (offset + 2)) _ _
              (Ensures-any (read_u16 bytes (offset + 2)))
              λ size _.
                Ensures-same _ (ok_or (checked_add usize_max (offset + 4) size) zip_overflow) _ _
                  (field_end offset size)
                  λ last lt. elim (Bool-cases (ltb (length bytes) last)) [
                    | inl f ↦ rw f refl
                    | inr f ↦ rw f (elim (Bool-cases (id == 1)) [
                      | inl g ↦ rw g refl
                      | inr g ↦ rw g (
                          extra_from-rounds n m bytes a b c last (ground (arith, lt)) (omega arith))
                    ])
                  ])
    ]
