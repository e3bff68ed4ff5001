-- ===== src/Excel/Segments.antt =====
-- crates/tabulark-excel-wasm/src/range.rs: the `BTreeMap` from offsets to bytes, as the list of its
-- entries in the order of their offsets.
pub mod Placed
pub mod Splice
pub mod Filled
use tabulark.Base.{ℕ, List, [], ◌∷◌, ◌++◌, Option, none, some, ltb, leb, ◌==◌, if◌then◌else◌}
use tabulark.Text.{Bytes}

abbrev pub Segments : Type 0
Segments = List (ℕ × Bytes)

abbrev pub or_else {ℓ} : {A : Type ℓ} → Option A → A → Option A
or_else none a = some a
or_else (some b) a = some b

-- `range(..=k).next_back()`
unfoldable pub last_at_most : ℕ → Segments → Option (ℕ × Bytes)
last_at_most k [] = none
last_at_most k ((start, bytes) ∷ m) =
    let later = or_else (last_at_most k m) (start, bytes) in if leb start k then later else none

-- `range(..k).next_back()`
unfoldable pub last_below : ℕ → Segments → Option (ℕ × Bytes)
last_below k [] = none
last_below k ((start, bytes) ∷ m) =
    let later = or_else (last_below k m) (start, bytes) in if ltb start k then later else none

-- `range(k..).next()`
unfoldable pub first_at_least : ℕ → Segments → Option (ℕ × Bytes)
first_at_least k [] = none
first_at_least k ((start, bytes) ∷ m) =
    let later = first_at_least k m in if leb k start then some (start, bytes) else later

-- `insert` at a key that is absent
unfoldable pub insert_segment : ℕ → Bytes → Segments → Segments
insert_segment k new [] = (k, new) ∷ []
insert_segment k new ((start, bytes) ∷ m) =
    let later = (start, bytes) ∷ insert_segment k new m in
    if ltb k start then (k, new) ∷ (start, bytes) ∷ m else later

-- `merged.extend_from_slice(&next)` if there is a next segment.
abbrev pub with_next : Option Bytes → Bytes → Bytes
with_next none merged = merged
with_next (some next) merged = merged ++ next
