-- ===== src/Model/Convert/Same.antt =====
-- `to_typed` and `into_typed` (model.rs) make the same batch.
use tabulark.Base.{
  ◌≤◌, ◌≡◌, refl, ap, ◌-◌, arith, List, [], ◌∷◌, All, length, usize_max, u64_max, le→leb,
}
use tabulark.State.{pure, ◌>>=◌, >>=-same, monad}
use tabulark.Model.Strings.{StringColumnBatch, len}
use tabulark.Model.Batch.{TableBatch}
use tabulark.Model.Pool.{Interner}
use tabulark.Model.Convert.{
  to_typed, into_typed, to_typed_column, into_typed_column, to_typed_columns, into_typed_columns,
  no_buffers, finish_typed,
}

-- The offsets of a column are counted by a `usize`.
abbrev pub AreCounted : List StringColumnBatch → Type 0
AreCounted = All (λ c. length c.offsets ≤ usize_max)

column-same :
    (c : StringColumnBatch) (s : Interner)
    → length c.offsets ≤ usize_max
    → to_typed_column c s ≡ into_typed_column c s
unfolding to_typed_column into_typed_column monad len
column-same c s h = rw (le→leb (length c.offsets - 1) u64_max (omega arith)) refl

columns-same :
    (columns : List StringColumnBatch) (s : Interner)
    → AreCounted columns
    → to_typed_columns columns s ≡ into_typed_columns columns s
unfolding to_typed_columns into_typed_columns
columns-same [] s h = refl
columns-same (c ∷ columns) s h =
    >>=-same (to_typed_column c) (into_typed_column c)
      (λ typed. to_typed_columns columns >>= λ rest. pure (typed ∷ rest))
      (λ typed. into_typed_columns columns >>= λ rest. pure (typed ∷ rest)) s (column-same c s h.0)
      λ typed t.
        >>=-same (to_typed_columns columns) (into_typed_columns columns)
          (λ rest. pure (typed ∷ rest)) (λ rest. pure (typed ∷ rest)) t (columns-same columns t h.1)
          (λ rest u. refl)

-- Converting a batch in place gives the same typed batch, or the same failure, as converting a copy
-- of it, if the offsets of each column are counted by a `usize`.
pub to_typed-into_typed : (b : TableBatch) → AreCounted b.columns → to_typed b ≡ into_typed b
unfolding to_typed into_typed
to_typed-into_typed b h = ap (finish_typed b) (columns-same b.columns no_buffers h)
