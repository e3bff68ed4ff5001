-- ===== src/Resource/Invariant.antt =====
-- The ledger stays within its budget (resource.rs).
use tabulark.Base.{ℕ, ◌+◌, ◌≤◌, ◌≡◌, arith, u64_max}
use tabulark.Error.{ok}
use tabulark.State.{state_of}
use tabulark.Resource.{
  ResourceLedger, Category, persistent, active_operation, ingress_output, native_cache,
  caller_owned, set_charge, runtime_owned_bytes, admit, release, clear_native_cache,
}

-- What the runtime owns, as plain sum.
abbrev pub owned : ResourceLedger → ℕ
owned l =
    l.charged.persistent_bytes + l.charged.active_operation_bytes + l.charged.ingress_output_bytes
    + l.charged.native_cache_bytes

pub record IsWithin (l : ResourceLedger) : Type 0 where
  pub budget_is_word : l.budget_bytes ≤ u64_max
  pub owned_le_budget : owned l ≤ l.budget_bytes
  pub owned_le_high_water : owned l ≤ l.high_water_bytes
  pub high_water_le_budget : l.high_water_bytes ≤ l.budget_bytes

pub runtime_owned_bytes_lem :
    (l : ResourceLedger) → owned l ≤ u64_max → runtime_owned_bytes l ≡ ok (owned l)
unfolding runtime_owned_bytes
runtime_owned_bytes_lem l h = ground arith

pub release-IsWithin :
    (c : Category) (n : ℕ) (l : ResourceLedger) → IsWithin l → IsWithin (state_of (release c n l))
unfolding release
release-IsWithin persistent n l w = ground arith
release-IsWithin active_operation n l w = ground arith
release-IsWithin ingress_output n l w = ground arith
release-IsWithin native_cache n l w = ground arith
release-IsWithin caller_owned n l w = ground arith

pub admit-IsWithin :
    (c : Category) (n : ℕ) (l : ResourceLedger) → IsWithin l → IsWithin (state_of (admit c n l))
unfolding admit
admit-IsWithin persistent n l w = ground arith
admit-IsWithin active_operation n l w = ground arith
admit-IsWithin ingress_output n l w = ground arith
admit-IsWithin native_cache n l w = ground arith
admit-IsWithin caller_owned n l w = ground arith

pub clear-IsWithin : (l : ResourceLedger) → IsWithin l → IsWithin (state_of (clear_native_cache l))
unfolding clear_native_cache
clear-IsWithin l w = ground arith

pub drop-IsWithin :
    (c : Category) (l : ResourceLedger)
    → IsWithin l
    → IsWithin (record l { charged = set_charge l.charged c 0 })
drop-IsWithin persistent l w = omega arith
drop-IsWithin active_operation l w = omega arith
drop-IsWithin ingress_output l w = omega arith
drop-IsWithin native_cache l w = omega arith
drop-IsWithin caller_owned l w = omega arith
