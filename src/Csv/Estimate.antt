-- ===== src/Csv/Estimate.antt =====
-- src/csv.rs: `estimated_index_bytes`. Capacities are the allocator's choice and the sizes of the
-- types the compiler's: both are arguments.
use tabulark.Base.{ℕ, ◌*◌, List, [], ◌∷◌, min, usize_max, saturating_add}
use tabulark.Csv.Core.{CsvCore}
use tabulark.Csv.Scanner.{CsvScanner}

-- `std::mem::size_of` of the types that the vectors hold.
pub record Sizes : Type 0 where
  pub checkpoint : ℕ
  pub column : ℕ
  pub name : ℕ
  pub diagnostic : ℕ

-- The capacity of each buffer that a scanner holds.
pub record Capacities : Type 0 where
  pub checkpoints : ℕ
  pub columns : ℕ
  pub header_names : ℕ
  pub diagnostics : ℕ
  pub field : ℕ
  pub bom_prefix : ℕ
  pub name_texts : List ℕ
  pub message_texts : List ℕ

-- `allocated_vec_bytes`
abbrev pub allocated_vec_bytes : ℕ → ℕ → ℕ
allocated_vec_bytes capacity size = min usize_max (capacity * size)

-- `fold(0, |bytes, text| bytes.saturating_add(text.capacity()))`
pub total_from : ℕ → List ℕ → ℕ
total_from bytes [] = bytes
total_from bytes (n ∷ ns) = total_from (saturating_add usize_max bytes n) ns

module _ (core : CsvCore) where
  unfoldable pub estimated_index_bytes : Sizes → Capacities → CsvScanner core → ℕ
  unfolding total_from
  estimated_index_bytes z c s =
      let add = saturating_add usize_max in
      let checkpoint_bytes = allocated_vec_bytes c.checkpoints z.checkpoint in
      let column_bytes = add (allocated_vec_bytes c.columns z.column) s.column_string_bytes in
      let header_bytes =
        add (allocated_vec_bytes c.header_names z.name) (total_from 0 c.name_texts) in
      let diagnostic_bytes =
        add (allocated_vec_bytes c.diagnostics z.diagnostic) (total_from 0 c.message_texts) in
      add
        (add (add (add (add checkpoint_bytes column_bytes) header_bytes) diagnostic_bytes) c.field)
        c.bom_prefix
