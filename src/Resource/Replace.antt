-- ===== src/Resource/Replace.antt =====
-- `replace` and histories of calls (resource.rs).
use tabulark.Base.{ℕ, ◌≤◌, ◌≡◌, List, [], ◌∷◌, arith, u64_max}
use tabulark.Error.{ok, err, TabularkError}
use tabulark.State.{state_of, result_of}
use tabulark.Resource.{
  ResourceLedger, Category, persistent, active_operation, ingress_output, native_cache,
  caller_owned, charge, admit, release, replace, clear_native_cache, release_all, open_ledger,
  observe_wasm_memory_pages,
}
use tabulark.Resource.Invariant.{IsWithin, admit-IsWithin, clear-IsWithin, release-IsWithin}

replace-IsWithin :
    (c : Category) (n : ℕ) (l : ResourceLedger) → IsWithin l → IsWithin (state_of (replace c n l))
unfolding replace
replace-IsWithin persistent n l w = ground arith
replace-IsWithin active_operation n l w = ground arith
replace-IsWithin ingress_output n l w = ground arith
replace-IsWithin native_cache n l w = ground arith
replace-IsWithin caller_owned n l w = ground arith

-- A call on the ledger.
pub data Call : Type 0 where
  admits releases replaces : Category → ℕ → Call
  clears releases_all : Call
  observes : ℕ → Call

pub step : ResourceLedger → Call → ResourceLedger
step l (admits c n) = state_of (admit c n l)
step l (releases c n) = state_of (release c n l)
step l (replaces c n) = state_of (replace c n l)
step l clears = state_of (clear_native_cache l)
step l releases_all = release_all l
step l (observes n) = observe_wasm_memory_pages n l

pub run : ResourceLedger → List Call → ResourceLedger
run l [] = l
run l (c ∷ cs) = run (step l c) cs

step-IsWithin : (l : ResourceLedger) (c : Call) → IsWithin l → IsWithin (step l c)
unfolding step release_all observe_wasm_memory_pages
step-IsWithin l (admits c n) w = admit-IsWithin c n l w
step-IsWithin l (releases c n) w = release-IsWithin c n l w
step-IsWithin l (replaces c n) w = replace-IsWithin c n l w
step-IsWithin l clears w = clear-IsWithin l w
step-IsWithin l releases_all w = omega arith
step-IsWithin l (observes n) w = omega arith

run_keeps : (l : ResourceLedger) (cs : List Call) → IsWithin l → IsWithin (run l cs)
unfolding run
run_keeps l [] w = w
run_keeps l (c ∷ cs) w = run_keeps (step l c) cs (step-IsWithin l c w)

open-IsWithin :
    (budget : ℕ) (l : ResourceLedger) → budget ≤ u64_max → open_ledger budget ≡ ok l → IsWithin l
unfolding open_ledger
open-IsWithin budget l b e = ground arith

-- Whatever calls are made on a fresh ledger with a 64-bit budget, failed ones included, what the
-- runtime owns stays within the high-water mark, and that within the budget.
pub run-IsWithin :
    (budget : ℕ) (l : ResourceLedger) (cs : List Call)
    → budget ≤ u64_max
    → open_ledger budget ≡ ok l
    → IsWithin (run l cs)
run-IsWithin budget l cs b e = run_keeps l cs (open-IsWithin budget l b e)

-- A replacement that fails leaves the charge of its category as it was.
replace_failed :
    (c : Category) (n : ℕ) (l : ResourceLedger) (e : TabularkError)
    → result_of (replace c n l) ≡ err e
    → charge (state_of (replace c n l)).charged c ≡ charge l.charged c
unfolding replace
replace_failed persistent n l e h = ground arith
replace_failed active_operation n l e h = ground arith
replace_failed ingress_output n l e h = ground arith
replace_failed native_cache n l e h = ground arith
replace_failed caller_owned n l e h = ground arith
