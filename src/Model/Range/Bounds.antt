-- ===== src/Model/Range/Bounds.antt =====
-- Which range requests are accepted (model.rs).
use tabulark.Base.{◌+◌, ◌≤◌, ◌≡◌, ◌↔◌, arith}
use tabulark.Error.{ok}
use tabulark.Model.Range.{RangeRequest, validate_public, row_end, column_end, max_safe_integer}

-- Both ends of the rectangle are safe integers.
abbrev pub IsSafe : RangeRequest → Type 0
IsSafe r =
    (r.row_start + r.row_count ≤ max_safe_integer)
    × (r.column_start + r.column_count ≤ max_safe_integer)

pub validate_public-IsSafe : (r : RangeRequest) → (validate_public r ≡ ok tt) ↔ IsSafe r
unfolding validate_public
validate_public-IsSafe r = (λ h. ground arith, λ h. ground arith)

-- The ends of an accepted request.
pub ends-IsSafe :
    (r : RangeRequest)
    → IsSafe r
    → (row_end r ≡ ok (r.row_start + r.row_count))
      × (column_end r ≡ ok (r.column_start + r.column_count))
unfolding row_end column_end
ends-IsSafe r h = ground arith
