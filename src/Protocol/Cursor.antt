-- ===== src/Protocol/Cursor.antt =====
-- src/protocol.rs: `AdapterOperationCursor`, which issues revisions and checks their results.
pub mod Answers
pub mod Progress
pub mod Steps
use tabulark.Base.{
  ℕ, ◌+◌, Bool, true, false, not, ◌||◌, List, [], ◌∷◌, Option, none, some, ltb, ◌==◌, if◌then◌else◌,
  length, checked_add, u64_max,
}
use tabulark.Error.{
  TabularkError, Result, ok, err, new, with_detail, number, invalid_argument, resource_limit,
  runtime_failure, ok_or, fail_if,
}
use tabulark.State.{M, pure, get, modify, lift, throw_if, ◌>>=◌, ◌>>◌}
use tabulark.Model.Range.{max_safe_integer}
use tabulark.Protocol.Matching.{check_results}
use tabulark.Protocol.Actions.{
  AdapterAction, AdapterActionResult, end, contains, validate_operation_actions,
}

pub record AdapterOperationCursor : Type 0 where
  pub revision : ℕ
  pub outstanding : List AdapterAction
  pub awaiting_results : Bool

-- `AdapterOperationCursor::new`
unfoldable pub new_cursor : AdapterOperationCursor
new_cursor = record { revision = 0; outstanding = []; awaiting_results = false }

-- The revision after this one.
unfoldable pub next_revision : ℕ → M AdapterOperationCursor ℕ
next_revision revision = do
  next ← lift (
      ok_or (checked_add u64_max revision 1)
        (new resource_limit "operation revision space is exhausted"))
  throw_if (ltb max_safe_integer next)
      (new resource_limit "operation revision exceeds the JavaScript safe integer range")
  pure next

unfoldable pub issue : List AdapterAction → ℕ → M AdapterOperationCursor ℕ
unfolding validate_operation_actions next_revision
issue actions operation_budget_bytes = do
  cursor ← get
  throw_if cursor.awaiting_results
      (new runtime_failure "operation already has outstanding source actions")
  _ ← lift (validate_operation_actions actions operation_budget_bytes)
  next ← next_revision cursor.revision
  modify λ c. record c { revision = next; outstanding = actions; awaiting_results = true }
  pure next

unfoldable pub complete_revision : M AdapterOperationCursor ℕ
unfolding next_revision
complete_revision = do
  cursor ← get
  throw_if cursor.awaiting_results
      (new runtime_failure "operation cannot complete with outstanding source actions")
  next ← next_revision cursor.revision
  modify λ c. record c { revision = next }
  pure next

unfoldable pub validate_results : ℕ → List AdapterActionResult → M AdapterOperationCursor (Unit {0})
unfolding check_results
validate_results operation_revision results = do
  cursor ← get
  throw_if (not (operation_revision == cursor.revision)) (
      with_detail
        (with_detail
          (new invalid_argument "operation result revision is missing, stale, or out of order")
          "expectedOperationRevision" (number cursor.revision))
        "actualOperationRevision" (number operation_revision))
  throw_if (not cursor.awaiting_results) (
      with_detail (new invalid_argument "operation revision has already consumed its result set")
        "operationRevision" (number operation_revision))
  throw_if (not (length results == length cursor.outstanding)) (
      with_detail
        (with_detail
          (new invalid_argument "operation result set is missing or contains extra source ranges")
          "expectedResults" (number (length cursor.outstanding)))
        "actualResults" (number (length results)))
  lift (check_results cursor.outstanding [] results)
  modify λ c. record c { outstanding = []; awaiting_results = false }
