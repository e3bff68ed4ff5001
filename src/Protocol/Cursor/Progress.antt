-- ===== src/Protocol/Cursor/Progress.antt =====
-- An operation (protocol.rs) can always go on: its step can be answered, and the next one issued.
use tabulark.Base.{
  ℕ, ◌+◌, ◌<◌, ◌≡◌, refl, arith, Bool, true, false, List, [], ◌∷◌, All, inl, inr, map, length-map,
}
use tabulark.State.{done, monad}
use tabulark.Model.Range.{max_safe_integer}
use tabulark.Protocol.Actions.{AdapterAction, AdapterActionResult}
use tabulark.Protocol.Actions.Exact.{
  index_of, Distinct, IsStep, total_of, validate_operation_actions-exact, all_new,
}
use tabulark.Protocol.Matching.Exact.{result_index, Asked, check_results-IsAnswering, answers_all}
use tabulark.Protocol.Cursor.{AdapterOperationCursor, issue, validate_results, next_revision}
use tabulark.Protocol.Cursor.Answers.{IsCursor, settled, accepts}

-- What the worker sends back for an action that it read.
abbrev pub answer : (AdapterAction → Bool) → AdapterAction → AdapterActionResult
answer eof a = record {
  action_index = a.action_index;
  offset = a.offset;
  length = a.length;
  eof = eof a;
}

-- The cursor behind a step with these actions.
abbrev pub issued : List AdapterAction → AdapterOperationCursor → AdapterOperationCursor
issued actions c = record {
  revision = c.revision + 1;
  outstanding = actions;
  awaiting_results = true;
}

same_indexes :
    (eof : AdapterAction → Bool) (actions : List AdapterAction)
    → map result_index (map (answer eof) actions) ≡ map index_of actions
same_indexes eof [] = refl
same_indexes eof (a ∷ actions) = rw (same_indexes eof actions) refl

all-Asked :
    (eof : AdapterAction → Bool) (actions : List AdapterAction)
    → All (Asked actions) (map (answer eof) actions)
all-Asked eof [] = tt
all-Asked eof (a ∷ actions) =
    (inl (refl, refl, refl), grow (map (answer eof) actions) (all-Asked eof actions))
  where
    grow : (rs : List AdapterActionResult) → All (Asked actions) rs → All (Asked (a ∷ actions)) rs
    grow [] h = tt
    grow (r ∷ rs) h = (inr h.0, grow rs h.1)

pub issue-issued :
    (c : AdapterOperationCursor) (actions : List AdapterAction) (budget : ℕ)
    → c.awaiting_results ≡ false
    → c.revision < max_safe_integer
    → IsStep actions budget
    → issue actions budget c ≡ done (c.revision + 1) (issued actions c)
unfolding issue next_revision monad
issue-issued c actions budget w m s =
    rw ((validate_operation_actions-exact actions budget (total_of actions)).1 (s, refl), w) ground
      arith

-- A step that waits is answered by what was read for each of its actions, wherever the source ends,
-- and any step within its budget can be issued then, while safe revisions are left.
pub answer-goes_on :
    (c : AdapterOperationCursor) (eof : AdapterAction → Bool) (actions : List AdapterAction)
    (budget : ℕ)
    → IsCursor c
    → c.awaiting_results ≡ true
    → c.revision < max_safe_integer
    → IsStep actions budget
    → (validate_results c.revision (map (answer eof) c.outstanding) c ≡ done tt (settled c))
      × (issue actions budget (settled c) ≡ done (c.revision + 1) (issued actions c))
answer-goes_on c eof actions budget v w m s = (
  accepts c c.revision (map (answer eof) c.outstanding)
      (record {
        current = refl;
        awaited = w;
        count = length-map (answer eof) c.outstanding;
        once = once;
        asked = all-Asked eof c.outstanding;
        answered =
            answers_all c.outstanding (map (answer eof) c.outstanding) v.distinct once
              (length-map (answer eof) c.outstanding) (all-Asked eof c.outstanding);
      })
      ((check_results-IsAnswering c.outstanding v.safe v.distinct []
          (map (answer eof) c.outstanding)).1
        (record {
          new = all_new (map result_index (map (answer eof) c.outstanding));
          distinct = once;
          asked = all-Asked eof c.outstanding;
        })),
  issue-issued (settled c) actions budget refl m s,
)
  where
    once : Distinct (map result_index (map (answer eof) c.outstanding))
    once = rw (same_indexes eof c.outstanding) v.distinct
