-- ===== src/Protocol/Actions.antt =====
-- src/protocol.rs: the byte ranges that one step of an operation asks for, and their checks.
pub mod Exact
use tabulark.Base.{
  ℕ, ◌+◌, ◌*◌, Bool, true, false, String, not, ◌||◌, ◌&&◌, List, [], ◌∷◌, Option, none, some, ltb,
  leb, ◌==◌, if◌then◌else◌, checked_add, try_from, u64_max, u32_max,
}
use tabulark.Base
use tabulark.Text.{show}
use tabulark.Error.{
  Result, ok, new, with_detail, number, string, invalid_argument, resource_limit,
  protocol_incompatible, ok_or, fail_if, ◌>>=◌, ◌>>◌,
}
use tabulark.Model.Range.{max_safe_integer}

-- `AdapterAction::ReadBytes`, the only kind of action.
pub record AdapterAction : Type 0 where
  pub action_index : ℕ
  pub offset : ℕ
  pub length : ℕ

unfoldable pub read_bytes : ℕ → ℕ → AdapterAction
read_bytes offset length = record { action_index = 0; offset = offset; length = length }

unfoldable pub indexed_read_bytes : ℕ → ℕ → ℕ → AdapterAction
indexed_read_bytes action_index offset length = record {
  action_index = action_index;
  offset = offset;
  length = length;
}

unfoldable pub end : AdapterAction → Result ℕ
end a = ok_or (checked_add u64_max a.offset a.length) (
    with_detail
      (with_detail
        (with_detail (new invalid_argument "adapter source action range overflows u64")
          "actionIndex" (number a.action_index))
        "offset" (number a.offset))
      "length" (number a.length))

pub record AdapterActionResult : Type 0 where
  pub action_index : ℕ
  pub offset : ℕ
  pub length : ℕ
  pub eof : Bool

-- `MAX_OPERATION_RANGES_PER_STEP`
abbrev pub max_ranges : ℕ
max_ranges = 32

-- A `HashSet` of identifiers is a list of them: `insert` answers whether the new one was absent.
abbrev pub contains : ℕ → List ℕ → Bool
contains i [] = false
contains i (j ∷ seen) = (i == j) || contains i seen

-- `offset > MAX || length > MAX || end()? > MAX`, from left to right.
unfoldable pub is_unsafe : AdapterAction → Result Bool
unfolding end
is_unsafe a =
    if ltb max_safe_integer a.offset || ltb max_safe_integer a.length
    then ok true
    else (end a >>= λ last. ok (ltb max_safe_integer last))

-- The loop over the actions, with the identifiers and the byte total so far.
unfoldable pub check_actions : List ℕ → ℕ → List AdapterAction → Result ℕ
unfolding is_unsafe
check_actions ids total [] = ok total
check_actions ids total (a ∷ actions) = do
  fail_if (contains a.action_index ids) (
      with_detail (new invalid_argument "operation step contains a duplicate source action ID")
        "actionIndex" (number a.action_index))
  unsafe ← is_unsafe a
  fail_if unsafe (
      with_detail
        (new resource_limit "operation source range exceeds the JavaScript safe integer boundary")
        "actionIndex" (number a.action_index))
  sum ←
      ok_or (checked_add u64_max total a.length)
        (new resource_limit "operation step source byte total overflows u64")
  check_actions (a.action_index ∷ ids) sum actions

unfoldable pub validate_operation_actions : List AdapterAction → ℕ → Result ℕ
unfolding check_actions
validate_operation_actions actions operation_budget_bytes = do
  fail_if (ltb max_ranges (Base.length actions)) (
      with_detail
        (with_detail (new resource_limit "operation step requests too many source ranges")
          "rangeCount" (number (Base.length actions)))
        "maxRangeCount" (number max_ranges))
  total ← check_actions [] 0 actions
  fail_if (ltb operation_budget_bytes total) (
      with_detail
        (with_detail (new resource_limit "operation step exceeds its source byte budget")
          "requestedBytes" (number total))
        "operationBudgetBytes" (number operation_budget_bytes))
  ok total

pub data AdapterStepKind : Type 0 where
  pending progress complete : AdapterStepKind

abbrev pub is_complete : AdapterStepKind → Bool
is_complete complete = true
is_complete _ = false

abbrev pub is_none : List AdapterAction → Bool
is_none [] = true
is_none (a ∷ actions) = false

-- The payload is a JSON value, which is only passed on.
pub record AdapterStep (Value : Type 0) : Type 0 where
  pub kind : AdapterStepKind
  pub operation_handle : ℕ
  pub operation_revision : ℕ
  pub actions : List AdapterAction
  pub cooperative_yield : Bool
  pub payload : Option Value

-- `AdapterStep::new`
unfoldable pub new_step :
    {Value : Type 0}
    → AdapterStepKind
    → ℕ
    → ℕ
    → List AdapterAction
    → Bool
    → Option Value
    → ℕ
    → Result (AdapterStep Value)
unfolding validate_operation_actions
new_step kind handle revision actions cooperative_yield payload budget = do
  _ ← validate_operation_actions actions budget
  fail_if ((revision == 0) || ltb max_safe_integer revision) (
      with_detail
        (new invalid_argument "operation revision must be a positive JavaScript safe integer")
        "operationRevision" (string (show revision)))
  fail_if (is_complete kind && (not (is_none actions) || cooperative_yield))
      (new invalid_argument "a complete operation step cannot request more work")
  fail_if (not (is_complete kind) && (is_none actions && not cooperative_yield)) (
      new invalid_argument
        "a non-terminal operation step must request I/O or an explicit cooperative yield")
  fail_if (not (is_none actions) && cooperative_yield)
      (new invalid_argument "an operation step cannot request I/O and a cooperative yield together")
  ok (record {
    kind = kind;
    operation_handle = handle;
    operation_revision = revision;
    actions = actions;
    cooperative_yield = cooperative_yield;
    payload = payload;
  })

unfoldable pub checked_wasm32_usize : ℕ → String → Result ℕ
checked_wasm32_usize value field = ok_or (try_from u32_max value) (
    with_detail
      (with_detail (new resource_limit "value exceeds the wasm32 usize range") "field"
        (string field))
      "value" (string (show value)))

-- `PROTOCOL_VERSION`
abbrev pub protocol_version : ℕ
protocol_version = 4

unfoldable pub ensure_protocol_version : ℕ → Result (Unit {0})
ensure_protocol_version actual = fail_if (not (actual == protocol_version)) (
    with_detail
      (with_detail
        (new protocol_incompatible "the peer uses an unsupported Worker protocol version")
        "expectedProtocolVersion" (number protocol_version))
      "actualProtocolVersion" (number actual))
