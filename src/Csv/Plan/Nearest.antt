-- ===== src/Csv/Plan/Nearest.antt =====
-- A plan begins at the checkpoint before its row (csv.rs).
use tabulark.Base.{
  ℕ, ◌+◌, ◌≤◌, ◌<◌, ◌≡◌, sym, List, [], ◌∷◌, arith, subst, get_elem?, some, suc, leb, leb→le,
  Bool-cases, inl, inr,
}
use tabulark.Error.{ok}
use tabulark.Model.Range.{RangeRequest}
use tabulark.Csv.Core.{CsvCore}
use tabulark.Csv.Options.{CsvCheckpoint, RangePlan}
use tabulark.Csv.Scanner.{CsvScanner}
use tabulark.Csv.Scanner.Index.{Spans, Indexes, IsIndexed}
use tabulark.Csv.Plan.{partition_point, nearest, plan_range}

-- The checkpoint is at the row or less than `n` rows before it.
abbrev pub Precedes : ℕ → ℕ → CsvCheckpoint → Type 0
Precedes n row c = (c.row ≤ row) × (row < c.row + n)

-- What is at the end of the part of the list in front: `p`, where that part is empty.
nearest-Spans :
    (n rows row : ℕ) (p d : CsvCheckpoint) (cs : List CsvCheckpoint)
    → Spans n rows p.row cs
    → p.row ≤ row
    → row < rows
    → Precedes n row (nearest row (p ∷ cs) d)
unfolding nearest partition_point
nearest-Spans n rows row p d [] h le lt = ground arith
nearest-Spans n rows row p d (c ∷ cs) h le lt = ground (arith, nearest-Spans n rows row c d cs h.3)

-- The checkpoint is one of the list.
abbrev pub IsAmong : CsvCheckpoint → List CsvCheckpoint → Type 0
IsAmong c cs = (i : ℕ) × (get_elem? cs i ≡ some c)

nearest-IsAmong :
    (row : ℕ) (p d : CsvCheckpoint) (cs : List CsvCheckpoint)
    → p.row ≤ row
    → IsAmong (nearest row (p ∷ cs) d) (p ∷ cs)
unfolding nearest partition_point
nearest-IsAmong row p d [] le = (0, ground arith)
nearest-IsAmong row p d (c ∷ cs) le = elim (Bool-cases (leb c.row row)) [
  | inl e ↦
      let (i, found) = nearest-IsAmong row c d cs (leb→le c.row row e) in
      (suc i, ground (arith, e, found))
  | inr e ↦ (0, ground (arith, e))
]

nearest-Indexes :
    (n rows row : ℕ) (d : CsvCheckpoint) (cs : List CsvCheckpoint)
    → Indexes n rows cs
    → row < rows
    → Precedes n row (nearest row cs d) × IsAmong (nearest row cs d) cs
nearest-Indexes n rows row d [] h lt = absurd (omega arith)
nearest-Indexes n rows row d (c ∷ cs) h lt = (
  nearest-Spans n rows row c d cs (subst (λ p. Spans n rows p cs) (sym h.0) h.1) (omega arith) lt,
  nearest-IsAmong row c d cs (omega arith),
)

module _ (core : CsvCore) where
  -- A plan for a row that the scanner has counted begins at a checkpoint of its index, at that row
  -- or fewer than `checkpoint_interval` rows before it, and skips exactly the rows between.
  pub plan_range-nearest :
      (request : RangeRequest) (s : CsvScanner core) (plan : RangePlan)
      → IsIndexed core s
      → plan_range core request s ≡ ok plan
      → request.row_start < s.rows
      → (plan.request ≡ request)
        × IsAmong plan.checkpoint s.checkpoints
        × (plan.checkpoint.row + plan.rows_to_skip ≡ request.row_start)
        × (plan.rows_to_skip < s.options.checkpoint_interval)
  unfolding plan_range
  plan_range-nearest request s plan h e lt =
      let default : CsvCheckpoint = record { row = s.rows; byte_offset = s.parser_offset } in
      let near : CsvCheckpoint = nearest request.row_start s.checkpoints default in
      let (precedes, among) =
        nearest-Indexes s.options.checkpoint_interval s.rows request.row_start default s.checkpoints
          h.1 lt in
      let same : plan.checkpoint ≡ near = ground (arith, e) in
      let (asked, skipped, less) : (plan.request ≡ request)
          × (plan.checkpoint.row + plan.rows_to_skip ≡ request.row_start)
          × (plan.rows_to_skip < s.options.checkpoint_interval) =
        ground (arith, e, precedes) in
      (asked, subst (λ c. IsAmong c s.checkpoints) (sym same) among, skipped, less)
