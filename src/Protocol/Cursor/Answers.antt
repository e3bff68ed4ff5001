-- ===== src/Protocol/Cursor/Answers.antt =====
-- Which result sets `validate_results` (protocol.rs) accepts.
use tabulark.Base.{
  ℕ, ◌≤◌, ◌≡◌, ◌↔◌, ◌⊎◌, inl, inr, refl, arith, true, false, List, [], All, Any, length, map, ◌==◌,
  ==_iff, Bool-cases,
}
use tabulark.Error.{TabularkError, ok, err, Result-cases}
use tabulark.State.{done, state_of, monad}
use tabulark.Model.Range.{max_safe_integer}
use tabulark.Protocol.Actions.{AdapterActionResult, max_ranges}
use tabulark.Protocol.Actions.Exact.{index_of, Distinct, IsSafeAction, all_new}
use tabulark.Protocol.Matching.{check_results}
use tabulark.Protocol.Matching.Exact.{
  result_index, Matches, Asked, IsAnswering, check_results-IsAnswering, answers_all,
}
use tabulark.Protocol.Cursor.{AdapterOperationCursor, validate_results}

-- A cursor whose outstanding actions could be issued.
pub record IsCursor (c : AdapterOperationCursor) : Type 0 where
  pub revision_safe : c.revision ≤ max_safe_integer
  pub few : length c.outstanding ≤ max_ranges
  pub distinct : Distinct (map index_of c.outstanding)
  pub safe : All IsSafeAction c.outstanding
  pub idle : c.awaiting_results ≡ false → c.outstanding ≡ []

-- A result set for the outstanding actions: of the last revision, with one result for each action
-- and for no other range.
pub record IsAnswer (c : AdapterOperationCursor) (operation_revision : ℕ)
    (results : List AdapterActionResult) : Type 0 where
  pub current : operation_revision ≡ c.revision
  pub awaited : c.awaiting_results ≡ true
  pub count : length results ≡ length c.outstanding
  pub once : Distinct (map result_index results)
  pub asked : All (Asked c.outstanding) results
  pub answered : All (λ a. Any (Matches a) results) c.outstanding

abbrev pub settled : AdapterOperationCursor → AdapterOperationCursor
settled c = record c { outstanding = []; awaiting_results = false }

pub accepts :
    (c : AdapterOperationCursor) (operation_revision : ℕ) (results : List AdapterActionResult)
    → IsAnswer c operation_revision results
    → check_results c.outstanding [] results ≡ ok tt
    → validate_results operation_revision results c ≡ done tt (settled c)
unfolding validate_results monad
accepts c operation_revision results a h = rw (h, a.awaited, a.count, a.current) ground arith

-- The tests before the loop.
abbrev IsDue : AdapterOperationCursor → ℕ → List AdapterActionResult → Type 0
IsDue c operation_revision results =
    (operation_revision ≡ c.revision)
    × (c.awaiting_results ≡ true)
    × (length results ≡ length c.outstanding)

IsDue-cases :
    (c : AdapterOperationCursor) (operation_revision : ℕ) (results : List AdapterActionResult)
    → IsDue c operation_revision results
      ⊎ ((IsDue c operation_revision results → ⊥)
          × (state_of (validate_results operation_revision results c) ≡ c))
unfolding validate_results monad
IsDue-cases c operation_revision results = elim (Bool-cases (operation_revision == c.revision)) [
  | inr e ↦ inr (λ d. ground arith, rw e refl)
  | inl e ↦ elim (Bool-cases c.awaiting_results) [
    | inr f ↦ inr (λ d. ground arith, rw (e, f) refl)
    | inl f ↦ elim (Bool-cases (length results == length c.outstanding)) [
      | inr g ↦ inr (λ d. ground arith, rw (e, f, g) refl)
      | inl g ↦ inl (
        (==_iff operation_revision c.revision).0 e,
        f,
        (==_iff (length results) (length c.outstanding)).0 g,
      )
    ]
  ]
]

refuses :
    (c : AdapterOperationCursor) (operation_revision : ℕ) (results : List AdapterActionResult)
    (e : TabularkError)
    → IsDue c operation_revision results
    → check_results c.outstanding [] results ≡ err e
    → state_of (validate_results operation_revision results c) ≡ c
unfolding validate_results monad
refuses c operation_revision results e d h = rw (h, d.1, d.2, d.0) ground arith

-- A result set is accepted exactly if it is of the last revision, that revision still waits, and the
-- results are those of the outstanding actions: one for each action, with its bytes, and none
-- twice. The cursor then waits no more; a result set that is refused changes nothing.
pub validate_results-exact :
    (c : AdapterOperationCursor) (operation_revision : ℕ) (results : List AdapterActionResult)
    → IsCursor c
    → (IsAnswer c operation_revision results
        × (validate_results operation_revision results c ≡ done tt (settled c)))
      ⊎ ((IsAnswer c operation_revision results → ⊥)
          × (state_of (validate_results operation_revision results c) ≡ c))
validate_results-exact c operation_revision results v =
    go (IsDue-cases c operation_revision results)
      (Result-cases (check_results c.outstanding [] results))
  where
    loop : (check_results c.outstanding [] results ≡ ok tt) ↔ IsAnswering c.outstanding [] results
    loop = check_results-IsAnswering c.outstanding v.safe v.distinct [] results

    refuted :
        (e : TabularkError)
        → check_results c.outstanding [] results ≡ err e
        → check_results c.outstanding [] results ≡ ok tt
        → ⊥
    refuted e p q = cc

    go :
        IsDue c operation_revision results
          ⊎ ((IsDue c operation_revision results → ⊥)
              × (state_of (validate_results operation_revision results c) ≡ c))
        → ((u : Unit {0}) × (check_results c.outstanding [] results ≡ ok u))
          ⊎ ((e : TabularkError) × (check_results c.outstanding [] results ≡ err e))
        → (IsAnswer c operation_revision results
            × (validate_results operation_revision results c ≡ done tt (settled c)))
          ⊎ ((IsAnswer c operation_revision results → ⊥)
              × (state_of (validate_results operation_revision results c) ≡ c))
    go (inr n) r = inr (λ a. n.0 (a.current, a.awaited, a.count), n.1)
    go (inl d) (inl k) =
        let q = loop.0 k.1 in
        let a : IsAnswer c operation_revision results = record {
          current = d.0;
          awaited = d.1;
          count = d.2;
          once = q.distinct;
          asked = q.asked;
          answered = answers_all c.outstanding results v.distinct q.distinct d.2 q.asked;
        } in
        inl (a, accepts c operation_revision results a k.1)
    go (inl d) (inr k) = inr (
      λ a. refuted k.0 k.1 (
          loop.1 (record {
            new = all_new (map result_index results);
            distinct = a.once;
            asked = a.asked;
          })),
      refuses c operation_revision results k.0 d k.1,
    )
