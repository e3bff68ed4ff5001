-- ===== src/Excel/Zip/Entries.antt =====
-- What a central directory that was read holds (range.rs).
use tabulark.Base.{
  ℕ, zero, suc, ◌+◌, ◌≤◌, ◌<◌, ◌≡◌, arith, false, List, [], ◌∷◌, All, subst, length, ◌==◌, not, ◌⊎◌,
  inl, inr, true, Bool-cases, if◌then◌else◌,
}
use tabulark.Text.{Bytes}
use tabulark.Error.{Result, ok, err, new, parse_failed, ◌>>=◌}
use tabulark.Excel.Host.{new_host_range}
use tabulark.Excel.Zip.{ZipEntryIndex, header_range}
use tabulark.Excel.Zip.Ensures.{
  Ensures, Ensures-step, Ensures-then, Ensures-guard, Ensures-err, Ensures-ok, Ensures-if,
  Ensures-value,
}
use tabulark.Excel.Zip.Directory.{
  max_compressed_entry_bytes, max_expanded_entry_bytes, check_entry, entry_ends, finish_entry,
  parse_entry, has_name, with_entry, entries_from, parse_central_directory,
}

-- An entry within the limits, with the header of its data in the source.
pub record IsEntry (source_length : ℕ) (e : ZipEntryIndex) : Type 0 where
  pub compressed : e.compressed_size ≤ max_compressed_entry_bytes
  pub expanded : e.uncompressed_size ≤ max_expanded_entry_bytes
  pub header : e.local_header_offset + 30 ≤ source_length

checks :
    (e : ZipEntryIndex) (source_length : ℕ)
    → Ensures
        (λ _.
          (e.compressed_size ≤ max_compressed_entry_bytes)
          × (e.uncompressed_size ≤ max_expanded_entry_bytes)
          × (e.local_header_offset + 30 ≤ source_length))
        (check_entry e source_length)
unfolding Ensures check_entry header_range new_host_range
checks e source_length = ground arith

abbrev pub Parsed : ℕ → ℕ → ZipEntryIndex × ℕ → Type 0
Parsed source_length offset r = IsEntry source_length r.0 × (offset < r.1)

accepted :
    (source_length offset : ℕ) (e : ZipEntryIndex) (last : ℕ)
    → offset < last
    → Ensures (Parsed source_length offset) (check_entry e source_length >>= λ _. ok (e, last))
unfolding Ensures
accepted source_length offset e last h =
    Ensures-step _ (Parsed source_length offset) (check_entry e source_length) (λ _. ok (e, last))
      (checks e source_length)
      (λ _ c. (record { compressed = c.0; expanded = c.1; header = c.2 }, h))

finish_entry-Parsed :
    (bytes : Bytes) (source_length offset : ℕ) (fixed : ZipEntryIndex) (ends : ℕ × ℕ × ℕ × ℕ)
    → offset < ends.3
    → Ensures (Parsed source_length offset) (finish_entry bytes source_length fixed ends)
unfolding finish_entry
finish_entry-Parsed bytes source_length offset fixed ends h =
    search (Ensures-then, accepted) depth 20

ends_later : (offset a b c : ℕ) → Ensures (λ r. offset < r.3) (entry_ends offset a b c)
unfolding Ensures entry_ends
ends_later offset a b c = ground arith

Ensures-ends :
    {B : Type 0} (P : B → Type 0) (offset a b c : ℕ) (k : ℕ × ℕ × ℕ × ℕ → Result B)
    → ((r : ℕ × ℕ × ℕ × ℕ) → offset < r.3 → Ensures P (k r))
    → Ensures P (entry_ends offset a b c >>= k)
Ensures-ends P offset a b c k h =
    Ensures-step _ P (entry_ends offset a b c) k (ends_later offset a b c) h

pub parse_entry-Parsed :
    (bytes : Bytes) (source_length offset : ℕ)
    → Ensures (Parsed source_length offset) (parse_entry bytes source_length offset)
unfolding parse_entry
parse_entry-Parsed bytes source_length offset =
    search (Ensures-ends, Ensures-then, finish_entry-Parsed) depth 30

-- No two entries have the same name.
abbrev pub Distinct : List ZipEntryIndex → Type 0
Distinct [] = Unit
Distinct (e ∷ entries) = (has_name e.name entries ≡ false) × Distinct entries

abbrev pub IsDirectory : ℕ → List ZipEntryIndex → Type 0
IsDirectory source_length entries = All (IsEntry source_length) entries × Distinct entries

entries_from-IsDirectory :
    (rounds : ℕ) (bytes : Bytes) (source_length offset : ℕ) (entries : List ZipEntryIndex)
    → IsDirectory source_length entries
    → Ensures (IsDirectory source_length) (entries_from rounds bytes source_length offset entries)
unfolding entries_from
entries_from-IsDirectory zero bytes source_length offset entries d =
    Ensures-err (IsDirectory source_length) _
entries_from-IsDirectory (suc rounds) bytes source_length offset entries d =
    Ensures-if (IsDirectory source_length) _ _ _
      (Ensures-step (Parsed source_length offset) (IsDirectory source_length) _ _
        (parse_entry-Parsed bytes source_length offset)
        λ r h.
          go r h (entries_from-IsDirectory rounds bytes source_length r.1 (r.0 ∷ entries))
            (Bool-cases (has_name r.0.name entries)))
      (Ensures-value (IsDirectory source_length) entries d)
  where
    go :
        (r : ZipEntryIndex × ℕ)
        → Parsed source_length offset r
        → (IsDirectory source_length (r.0 ∷ entries)
            → Ensures
                (IsDirectory source_length)
                (entries_from rounds bytes source_length r.1 (r.0 ∷ entries)))
        → (has_name r.0.name entries ≡ true) ⊎ (has_name r.0.name entries ≡ false)
        → Ensures (IsDirectory source_length) (
            if has_name r.0.name entries
            then err (with_entry r.0.name (new parse_failed "XLSX ZIP contains a duplicate entry"))
            else entries_from rounds bytes source_length r.1 (r.0 ∷ entries))
    go r h rest (inl e) = rw e (Ensures-err (IsDirectory source_length) _)
    go r h rest (inr e) = rw e (rest ((h.0, d.0), (e, d.1)))

parsed :
    (bytes : Bytes) (expected source_length : ℕ)
    → Ensures
        (λ es. IsDirectory source_length es × (length es ≡ expected))
        (parse_central_directory bytes expected source_length)
unfolding parse_central_directory
parsed bytes expected source_length =
    Ensures-step (IsDirectory source_length) _ _ _
      (entries_from-IsDirectory (suc (length bytes)) bytes source_length 0 [] (tt, tt))
      λ es d.
        Ensures-step (λ _. not (length es == expected) ≡ false) _ _ _
          (Ensures-guard (not (length es == expected)) _)
          λ _ e.
            Ensures-value (λ l. IsDirectory source_length l × (length l ≡ expected)) es
              (d, ground arith)

-- A central directory that is read has as many entries as the end of the file says, all with
-- different names, within the limits on their sizes and with their headers in the source.
pub parse_central_directory-IsDirectory :
    (bytes : Bytes) (expected source_length : ℕ) (entries : List ZipEntryIndex)
    → parse_central_directory bytes expected source_length ≡ ok entries
    → (length entries ≡ expected) × All (IsEntry source_length) entries × Distinct entries
parse_central_directory-IsDirectory bytes expected source_length entries e =
    let P : List ZipEntryIndex → Type 0 =
      λ es. IsDirectory source_length es × (length es ≡ expected) in
    let h = Ensures-ok P entries (subst (Ensures P) e (parsed bytes expected source_length)) in
    (h.1, h.0.0, h.0.1)
