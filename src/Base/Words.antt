-- ===== src/Base/Words.antt =====
-- Machine integers: a value is a plain number, with the bound of its type written out where the
-- source checks or saturates. `usize` is that of the wasm32 target.
use Prim.Native.Nat.{ℕ, ◌+◌, ◌-◌, ◌*◌, ◌^◌, min}
use mathlib.Core.Option.{Option, none, some}
use tabulark.Base.Bools.{leb, if◌then◌else◌}

abbrev pub u32_max : ℕ
u32_max = 2 ^ 32 - 1

abbrev pub u64_max : ℕ
u64_max = 2 ^ 64 - 1

abbrev pub usize_max : ℕ
usize_max = 2 ^ 32 - 1

-- `a.checked_add(b)` at the type whose largest value is `bound`, and its kin.
abbrev pub checked_add : ℕ → ℕ → ℕ → Option ℕ
checked_add bound a b = if leb (a + b) bound then some (a + b) else none

abbrev pub checked_mul : ℕ → ℕ → ℕ → Option ℕ
checked_mul bound a b = if leb (a * b) bound then some (a * b) else none

abbrev pub checked_sub : ℕ → ℕ → Option ℕ
checked_sub a b = if leb b a then some (a - b) else none

abbrev pub saturating_add : ℕ → ℕ → ℕ → ℕ
saturating_add bound a b = min bound (a + b)

-- `T::try_from(value)` at the type whose largest value is `bound`.
abbrev pub try_from : ℕ → ℕ → Option ℕ
try_from bound value = if leb value bound then some value else none

-- Signed machine integers: zero and up, or minus one and down.
pub data ℤ : Type 0 where
  pos negsuc : ℕ → ℤ
