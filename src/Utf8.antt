-- ===== src/Utf8.antt =====
-- `std::str::from_utf8` and `String::from_utf8_lossy`, which the delimited adapter calls: a state
-- machine over the well-formed byte sequences of the Unicode standard (table 3-7).
pub mod Lossy
use tabulark.Base.{
  ℕ, zero, suc, ◌+◌, ◌-◌, Bool, true, false, ◌&&◌, ◌||◌, List, [], ◌∷◌, ◌++◌, Option, none, some,
  leb, ltb, ◌==◌, if◌then◌else◌,
}
use tabulark.Text.{Bytes}

-- Between two characters, or inside one: the range of the next byte, and how many follow it.
pub data State : Type 0 where
  between : State
  inside : ℕ → ℕ → ℕ → State

abbrev within : ℕ → ℕ → ℕ → Bool
within lo hi b = leb lo b && leb b hi

-- The state behind a byte that begins a character.
unfoldable pub lead : ℕ → Option State
lead b =
    if ltb b 0x80
    then some between
    else if within 0xc2 0xdf b
    then some (inside 0x80 0xbf 0)
    else if b == 0xe0
    then some (inside 0xa0 0xbf 1)
    else if within 0xe1 0xec b || within 0xee 0xef b
    then some (inside 0x80 0xbf 1)
    else if b == 0xed
    then some (inside 0x80 0x9f 1)
    else if b == 0xf0
    then some (inside 0x90 0xbf 2)
    else if within 0xf1 0xf3 b
    then some (inside 0x80 0xbf 2)
    else if b == 0xf4
    then some (inside 0x80 0x8f 2)
    else none

abbrev more : ℕ → State
more zero = between
more (suc k) = inside 0x80 0xbf k

unfoldable pub advance : State → ℕ → Option State
unfolding lead
advance between b = lead b
advance (inside lo hi k) b = if within lo hi b then some (more k) else none

unfoldable pub is_valid_from : Option State → Bytes → Bool
unfolding advance
is_valid_from none bs = false
is_valid_from (some between) [] = true
is_valid_from (some (inside lo hi k)) [] = false
is_valid_from (some s) (b ∷ bs) = is_valid_from (advance s b) bs

-- `from_utf8(bytes).is_ok()`
unfoldable pub is_valid : Bytes → Bool
unfolding is_valid_from
is_valid bs = is_valid_from (some between) bs

-- U+FFFD, which stands for each maximal part of an ill-formed sequence.
abbrev pub replacement : Bytes
replacement = 0xef ∷ 0xbf ∷ 0xbd ∷ []

-- What was read of the character at hand, in order, behind a byte that is read as its first.
abbrev begin : Option State → ℕ → Bytes × State × Bytes
begin none b = (replacement, between, [])
begin (some between) b = (b ∷ [], between, [])
begin (some s) b = ([], s, b ∷ [])

-- One byte: what is written, and the state and the pending bytes behind it.
unfoldable pub lossy_step : State → Bytes → ℕ → Bytes × State × Bytes
unfolding advance
lossy_step between held b = begin (lead b) b
lossy_step (inside lo hi k) held b = elim (advance (inside lo hi k) b) [
  | none ↦ let (out, s, rest) = begin (lead b) b in (replacement ++ out, s, rest)
  | some between ↦ (held ++ b ∷ [], between, [])
  | some s ↦ ([], s, held ++ b ∷ [])
]

pub lossy_from : State → Bytes → Bytes → Bytes
unfolding lossy_step
lossy_from between held [] = []
lossy_from (inside lo hi k) held [] = replacement
lossy_from s held (b ∷ bs) =
    let (out, s', held') = lossy_step s held b in out ++ lossy_from s' held' bs

-- `String::from_utf8_lossy(bytes)`
unfoldable pub lossy : Bytes → Bytes
unfolding lossy_from
lossy = lossy_from between []
