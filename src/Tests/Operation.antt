-- ===== src/Tests/Operation.antt =====
-- Examples for the steps of an operation (protocol.rs).
use tabulark.Base.{◌≡◌, ◌≢◌, ◌↔◌, ◌⊎◌, refl, arith, true, false, List, [], ◌∷◌, map}
use tabulark.Error.{ok}
use tabulark.State.{done, state_of, monad}
use tabulark.Protocol.Actions.{AdapterAction, AdapterActionResult, validate_operation_actions, end}
use tabulark.Protocol.Actions.Exact.{IsStep, total_of, validate_operation_actions-exact}
use tabulark.Protocol.Matching.{check_results, check_result, find_action, differs}
use tabulark.Protocol.Cursor.{
  AdapterOperationCursor, new_cursor, issue, validate_results, next_revision,
}
use tabulark.Protocol.Cursor.Answers.{IsCursor, IsAnswer, settled, validate_results-exact}
use tabulark.Protocol.Cursor.Progress.{answer, issued, answer-goes_on}
use tabulark.Protocol.Cursor.Steps.{issue_call, results_call, run, run-IsCursor, results-once}

-- The header and the tail of a source.
abbrev actions : List AdapterAction
actions =
    record { action_index = 0; offset = 0; length = 8 }
    ∷ record { action_index = 1; offset = 100; length = 28 }
    ∷ []

abbrev waiting : AdapterOperationCursor
waiting = record { revision = 1; outstanding = actions; awaiting_results = true }

-- The answers in another order.
abbrev answers : List AdapterActionResult
answers =
    record { action_index = 1; offset = 100; length = 28; eof = true }
    ∷ record { action_index = 0; offset = 0; length = 8; eof = false }
    ∷ []

issue_runs : issue actions 64 new_cursor ≡ done 1 waiting
unfolding issue new_cursor next_revision validate_operation_actions monad
issue_runs = refl

answers_taken : validate_results 1 answers waiting ≡ done tt (settled waiting)
unfolding validate_results check_results check_result find_action differs end monad
answers_taken = refl

actions-IsStep : IsStep actions 64
actions-IsStep = record {
  few = omega arith;
  distinct = ((λ e. omega arith, tt), (tt, tt));
  safe = (omega arith, (omega arith, tt));
  within = omega arith;
}

validate_operation_actions-exact_example :
    (validate_operation_actions actions 64 ≡ ok 36) ↔ (IsStep actions 64 × (36 ≡ total_of actions))
validate_operation_actions-exact_example = validate_operation_actions-exact actions 64 36

waiting-IsCursor : IsCursor waiting
waiting-IsCursor = record {
  revision_safe = omega arith;
  few = omega arith;
  distinct = ((λ e. omega arith, tt), (tt, tt));
  safe = (omega arith, (omega arith, tt));
  idle = λ w. cc;
}

validate_results-exact_example :
    (IsAnswer waiting 1 answers × (validate_results 1 answers waiting ≡ done tt (settled waiting)))
    ⊎ ((IsAnswer waiting 1 answers → ⊥) × (state_of (validate_results 1 answers waiting) ≡ waiting))
validate_results-exact_example = validate_results-exact waiting 1 answers waiting-IsCursor

answer-goes_on_example :
    (validate_results 1 (map (answer (λ a. false)) actions) waiting ≡ done tt (settled waiting))
    × (issue actions 64 (settled waiting) ≡ done 2 (issued actions waiting))
answer-goes_on_example =
    answer-goes_on waiting (λ a. false) actions 64 waiting-IsCursor refl (omega arith)
      actions-IsStep

run-IsCursor_example : IsCursor (run (results_call 1 answers ∷ issue_call actions 64 ∷ []) waiting)
run-IsCursor_example =
    run-IsCursor (results_call 1 answers ∷ issue_call actions 64 ∷ []) waiting waiting-IsCursor

results-once_example :
    validate_results 1 answers (run (issue_call actions 64 ∷ []) (settled waiting))
    ≢ done tt (settled waiting)
results-once_example =
    results-once 1 answers waiting (settled waiting) answers_taken (issue_call actions 64 ∷ [])
      answers (settled waiting)
