-- ===== src/Tests/Workbook.antt =====
-- Examples for the ranges of a workbook (crates/tabulark-excel-wasm/src/range.rs).
use tabulark.Base.{ℕ, ◌≡◌, ◌≤◌, ◌↔◌, negsuc, ◌⊎◌, inl, inr, refl, arith, [], ◌∷◌, none, some}
use tabulark.Text.{Bytes, codes}
use tabulark.Error.{ok}
use tabulark.State.{done, monad}
use tabulark.Excel.Segments.{last_at_most, last_below, first_at_least, insert_segment}
use tabulark.Excel.Segments.Placed.{byte_at}
use tabulark.Excel.Segments.Filled.{filled}
use tabulark.Excel.Host.{HostRange, segment_end, check_previous, check_next, new_host_range}
use tabulark.Excel.Ranges.{IndexedRanges, insert, add_range, absorb_previous, absorb_next, take_out}
use tabulark.Excel.Ranges.Order.{IsIndexed}
use tabulark.Excel.Ranges.Insert.{insert-fills}
use tabulark.Excel.Missing.{first_missing, missing_from, gap_at, covered_end, indexed_bytes}
use tabulark.Excel.Missing.Exact.{IsRead, IsGap, first_missing-exact}
use tabulark.Excel.Missing.Whole.{IsPiece, indexed_bytes-IsPiece}
use tabulark.Excel.Reader.{
  SparseReader, io_ok, io_err, would_block, read, read_at, copied, blocked, seek, from_current,
  tail_range,
}
use tabulark.Excel.Reader.Exact.{Answers, read-Answers}
use tabulark.Excel.Reader.Seek.{IsTarget, seek-exact}

-- Two parts of a source of 32 bytes.
abbrev partly : IndexedRanges
partly = record {
  source_length = 32;
  ranges = (0, codes "PK") ∷ (8, codes "data") ∷ [];
  retained_bytes = 6;
}

partly-IsIndexed : IsIndexed partly
partly-IsIndexed = record {
  placed = ((omega arith, omega arith), ((omega arith, omega arith), tt));
  within = (omega arith, (omega arith, tt));
  counted = refl;
  addressable = omega arith;
}

-- The bytes between the two.
abbrev between : HostRange
between = record { offset = 2; length = 6 }

insert-fills_example :
    (s : IndexedRanges) × (insert between (codes "header") partly ≡ done tt s)
    × IsIndexed s
    × ((p : ℕ) → byte_at s.ranges p ≡ filled 2 (codes "header") (byte_at partly.ranges) p)
insert-fills_example =
    insert-fills between (codes "header") partly partly-IsIndexed refl (omega arith) (omega arith)
      (inl (omega arith), (inr (omega arith), tt))

-- The three parts are one afterwards.
merged :
    insert between (codes "header") partly
    ≡ done tt (record {
      source_length = 32;
      ranges = (0, codes "PKheaderdata") ∷ [];
      retained_bytes = 12;
    })
unfolding insert add_range absorb_previous absorb_next take_out check_previous check_next
    segment_end last_at_most last_below first_at_least insert_segment monad
merged = refl

first_missing-exact_example :
    ((first_missing partly (record { offset = 0; length = 12 }) ≡ ok none) × IsRead partly 0 12)
    ⊎ ((g : HostRange) × (first_missing partly (record { offset = 0; length = 12 }) ≡ ok (some g))
        × IsGap partly (record { offset = 0; length = 12 }) g)
first_missing-exact_example =
    first_missing-exact partly (record { offset = 0; length = 12 }) partly-IsIndexed (omega arith)

first_gap : first_missing partly (record { offset = 0; length = 12 }) ≡ ok (some between)
unfolding first_missing missing_from gap_at covered_end segment_end new_host_range last_at_most
    first_at_least
first_gap = refl

nothing_missing : first_missing partly (record { offset = 9; length = 3 }) ≡ ok none
unfolding first_missing missing_from gap_at covered_end segment_end new_host_range last_at_most
    first_at_least
nothing_missing = refl

indexed_bytes-IsPiece_example :
    (bytes : Bytes) × (indexed_bytes partly (record { offset = 9; length = 3 }) ≡ some bytes)
    × IsPiece partly (record { offset = 9; length = 3 }) bytes
indexed_bytes-IsPiece_example =
    indexed_bytes-IsPiece partly (record { offset = 9; length = 3 }) partly-IsIndexed
      (omega arith, (omega arith, tt)) (omega arith) (omega arith) nothing_missing

-- A reader in the first part, and one between the two.
abbrev reading_at : ℕ → SparseReader
reading_at n = record { indexed = partly; position = n; chunk_bytes = 8 }

read-Answers_example : Answers (reading_at 8) 3 (read (reading_at 8) 3)
read-Answers_example =
    read-Answers (reading_at 8) 3 partly-IsIndexed (omega arith) (omega arith) (omega arith)

copied_bytes : read (reading_at 8) 3 ≡ io_ok (codes "dat", reading_at 11)
unfolding read read_at copied last_at_most
copied_bytes = refl

missing_window : read (reading_at 2) 3 ≡ io_err (would_block (record { offset = 2; length = 8 }))
unfolding read read_at copied blocked last_at_most new_host_range
missing_window = refl

seek-exact_example : (seek (reading_at 8) (from_current (negsuc 2)) ≡ io_ok (5, reading_at 5)) ↔ (
    IsTarget (reading_at 8) (from_current (negsuc 2)) 5 × (5 ≤ 32) × (reading_at 5 ≡ reading_at 5))
seek-exact_example =
    seek-exact (reading_at 8) (from_current (negsuc 2)) (5, reading_at 5) (omega arith)

whole_tail : tail_range 100 ≡ ok (record { offset = 0; length = 100 })
unfolding tail_range new_host_range
whole_tail = refl
