-- ===== src/Protocol/Matching.antt =====
-- src/protocol.rs: the loop of `validate_results`, which matches results with their actions.
pub mod Exact
pub mod Pigeonhole
use tabulark.Base.{
  ℕ, Bool, true, false, not, ◌||◌, List, [], ◌∷◌, Option, none, some, ◌==◌, if◌then◌else◌,
  checked_add, u64_max,
}
use tabulark.Error.{
  TabularkError, Result, ok, new, with_detail, number, invalid_argument, ok_or, fail_if, ◌>>=◌,
  ◌>>◌,
}
use tabulark.Protocol.Actions.{AdapterAction, AdapterActionResult, end, contains}

-- `outstanding.iter().copied().find(|action| action.action_index() == index)`
unfoldable pub find_action : ℕ → List AdapterAction → Option AdapterAction
find_action index [] = none
find_action index (a ∷ actions) =
    if a.action_index == index then some a else find_action index actions

mismatch : AdapterAction → AdapterActionResult → TabularkError
mismatch expected result =
    with_detail
      (with_detail
        (with_detail
          (with_detail
            (with_detail
              (new invalid_argument "operation result does not match its requested source range")
              "actionIndex" (number result.action_index))
            "expectedOffset" (number expected.offset))
          "expectedLength" (number expected.length))
        "actualOffset" (number result.offset))
      "actualLength" (number result.length)

-- `expected.offset() != offset || expected.length() != length || expected.end()? != actual_end`
unfoldable pub differs : AdapterAction → AdapterActionResult → ℕ → Result Bool
unfolding end
differs expected result actual_end =
    if not (expected.offset == result.offset) || not (expected.length == result.length)
    then ok true
    else (end expected >>= λ last. ok (not (last == actual_end)))

-- The checks of one result but for duplicates.
unfoldable pub check_result : List AdapterAction → AdapterActionResult → Result (Unit {0})
unfolding find_action differs mismatch
check_result outstanding result = do
  expected ← ok_or (find_action result.action_index outstanding) (
      with_detail (new invalid_argument "operation result references an unknown source range")
        "actionIndex" (number result.action_index))
  actual_end ← ok_or (checked_add u64_max result.offset result.length) (
      with_detail (new invalid_argument "operation result source range overflows u64") "actionIndex"
        (number result.action_index))
  different ← differs expected result actual_end
  fail_if different (mismatch expected result)

unfoldable pub check_results :
    List AdapterAction → List ℕ → List AdapterActionResult → Result (Unit {0})
unfolding check_result
check_results outstanding seen [] = ok tt
check_results outstanding seen (result ∷ results) = do
  fail_if (contains result.action_index seen) (
      with_detail (new invalid_argument "operation result set contains a duplicate source range")
        "actionIndex" (number result.action_index))
  check_result outstanding result
  check_results outstanding (result.action_index ∷ seen) results
