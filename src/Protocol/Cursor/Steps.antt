-- ===== src/Protocol/Cursor/Steps.antt =====
-- Any sequence of calls on `AdapterOperationCursor` (protocol.rs).
use tabulark.Base.{
  ℕ, ◌+◌, ◌≤◌, ◌<◌, ◌≡◌, ◌≢◌, ◌⊎◌, inl, inr, refl, sym, ap, arith, true, false, List, [], ◌∷◌,
  length, ltb, ◌==◌, ==_iff, Bool-cases,
}
use tabulark.Error.{TabularkError, ok, err, Result-cases}
use tabulark.State.{done, state_of, monad}
use tabulark.Model.Range.{max_safe_integer}
use tabulark.Protocol.Actions.{AdapterAction, AdapterActionResult, validate_operation_actions}
use tabulark.Protocol.Actions.Exact.{IsStep, validate_operation_actions-exact}
use tabulark.Protocol.Cursor.{
  AdapterOperationCursor, issue, complete_revision, validate_results, next_revision,
}
use tabulark.Protocol.Matching.{check_results}
use tabulark.Protocol.Cursor.Answers.{IsCursor, settled}
use tabulark.Protocol.Cursor.Progress.{issued}

pub data Call : Type 0 where
  issue_call : List AdapterAction → ℕ → Call
  complete_call : Call
  results_call : ℕ → List AdapterActionResult → Call

-- The cursor behind a call, which may have failed.
unfoldable pub call : Call → AdapterOperationCursor → AdapterOperationCursor
unfolding issue complete_revision validate_results
call (issue_call actions budget) c = state_of (issue actions budget c)
call complete_call c = state_of (complete_revision c)
call (results_call revision results) c = state_of (validate_results revision results c)

unfoldable pub run : List Call → AdapterOperationCursor → AdapterOperationCursor
unfolding call
run [] c = c
run (k ∷ calls) c = run calls (call k c)

abbrev completed : AdapterOperationCursor → AdapterOperationCursor
completed c = record c { revision = c.revision + 1 }

-- What a call can do to the cursor.
data Step (c d : AdapterOperationCursor) : Type 0 where
  refused : d ≡ c → Step c d
  settles : d ≡ settled c → Step c d
  completes :
      c.awaiting_results ≡ false → c.revision < max_safe_integer → d ≡ completed c → Step c d
  issues :
      (actions : List AdapterAction) (budget : ℕ)
      → c.revision < max_safe_integer
      → IsStep actions budget
      → d ≡ issued actions c
      → Step c d

issue-Step :
    (actions : List AdapterAction) (budget : ℕ) (c : AdapterOperationCursor)
    → Step c (state_of (issue actions budget c))
unfolding issue next_revision monad
issue-Step actions budget c =
    go (Bool-cases c.awaiting_results) (Result-cases (validate_operation_actions actions budget))
      (Bool-cases (ltb max_safe_integer (c.revision + 1)))
  where
    go :
        (c.awaiting_results ≡ true) ⊎ (c.awaiting_results ≡ false)
        → ((t : ℕ) × (validate_operation_actions actions budget ≡ ok t))
          ⊎ ((e : TabularkError) × (validate_operation_actions actions budget ≡ err e))
        → (ltb max_safe_integer (c.revision + 1) ≡ true)
          ⊎ (ltb max_safe_integer (c.revision + 1) ≡ false)
        → Step c (state_of (issue actions budget c))
    go (inl w) r b = refused (rw w refl)
    go (inr w) (inr r) b = refused (rw (w, r.1) refl)
    go (inr w) (inl r) (inl b) = refused (rw (w, r.1) ground arith)
    go (inr w) (inl r) (inr b) =
        issues actions budget (ground arith)
          ((validate_operation_actions-exact actions budget r.0).0 r.1).0 (rw (w, r.1) ground arith)

complete_revision-Step : (c : AdapterOperationCursor) → Step c (state_of (complete_revision c))
unfolding complete_revision next_revision monad
complete_revision-Step c =
    go (Bool-cases c.awaiting_results) (Bool-cases (ltb max_safe_integer (c.revision + 1)))
  where
    go :
        (c.awaiting_results ≡ true) ⊎ (c.awaiting_results ≡ false)
        → (ltb max_safe_integer (c.revision + 1) ≡ true)
          ⊎ (ltb max_safe_integer (c.revision + 1) ≡ false)
        → Step c (state_of (complete_revision c))
    go (inl w) b = refused (rw w refl)
    go (inr w) (inl b) = refused (rw w ground arith)
    go (inr w) (inr b) = completes w (ground arith) (rw w ground arith)

validate_results-Step :
    (operation_revision : ℕ) (results : List AdapterActionResult) (c : AdapterOperationCursor)
    → (state_of (validate_results operation_revision results c) ≡ c)
      ⊎ (state_of (validate_results operation_revision results c) ≡ settled c)
unfolding validate_results monad
validate_results-Step operation_revision results c =
    elim (Bool-cases (operation_revision == c.revision)) [
      | inr e ↦ inl (rw e refl)
      | inl e ↦ elim (Bool-cases c.awaiting_results) [
        | inr f ↦ inl (rw (e, f) refl)
        | inl f ↦ elim (Bool-cases (length results == length c.outstanding)) [
          | inr g ↦ inl (rw (e, f, g) refl)
          | inl g ↦ elim (Result-cases (check_results c.outstanding [] results)) [
            | inl k ↦ inr (rw (e, f, g, k.1) refl)
            | inr k ↦ inl (rw (e, f, g, k.1) refl)
          ]
        ]
      ]
    ]

call-Step : (k : Call) (c : AdapterOperationCursor) → Step c (call k c)
unfolding call
call-Step (issue_call actions budget) c = issue-Step actions budget c
call-Step complete_call c = complete_revision-Step c
call-Step (results_call operation_revision results) c =
    elim (validate_results-Step operation_revision results c) [
      | inl e ↦ refused e
      | inr e ↦ settles e
    ]

-- An invariant that every kind of step keeps.
Step-keeps :
    (P : AdapterOperationCursor → Type 0)
    → ((c d : AdapterOperationCursor) → Step c d → P c → P d)
    → (calls : List Call) (c : AdapterOperationCursor) → P c
    → P (run calls c)
unfolding run
Step-keeps P h [] c p = p
Step-keeps P h (k ∷ calls) c p = Step-keeps P h calls (call k c) (h c (call k c) (call-Step k c) p)

Step-IsCursor : (c d : AdapterOperationCursor) → Step c d → IsCursor c → IsCursor d
Step-IsCursor c d (refused e) v = rw e v
Step-IsCursor c d (settles e) v = rw e record {
  revision_safe = v.revision_safe;
  few = omega arith;
  distinct = tt;
  safe = tt;
  idle = λ w. refl;
}
Step-IsCursor c d (completes w m e) v = rw e record {
  revision_safe = omega arith;
  few = v.few;
  distinct = v.distinct;
  safe = v.safe;
  idle = v.idle;
}
Step-IsCursor c d (issues actions budget m s e) v = rw e record {
  revision_safe = omega arith;
  few = s.few;
  distinct = s.distinct;
  safe = s.safe;
  idle = λ w. cc;
}

-- Whatever is called, failed calls included, a cursor stays in order: its revision is a safe
-- integer, the actions that it waits for are those of a step that may be issued, and there are none
-- when it does not wait.
pub run-IsCursor :
    (calls : List Call) (c : AdapterOperationCursor) → IsCursor c → IsCursor (run calls c)
run-IsCursor = Step-keeps IsCursor Step-IsCursor

-- A revision whose results were taken.
record IsPast (revision : ℕ) (c : AdapterOperationCursor) : Type 0 where
  reached : revision ≤ c.revision
  taken : revision ≡ c.revision → c.awaiting_results ≡ false

Step-IsPast :
    (revision : ℕ) (c d : AdapterOperationCursor) → Step c d → IsPast revision c → IsPast revision d
Step-IsPast revision c d (refused e) p = rw e p
Step-IsPast revision c d (settles e) p = rw e record { reached = p.reached; taken = λ k. refl }
Step-IsPast revision c d (completes w m e) p =
    rw e record { reached = omega (arith, p.reached); taken = λ k. w }
Step-IsPast revision c d (issues actions budget m s e) p =
    rw e
      record { reached = omega (arith, p.reached); taken = λ k. absurd (omega (arith, p.reached)) }

past_rejects :
    (revision : ℕ) (results : List AdapterActionResult) (c t : AdapterOperationCursor)
    → IsPast revision c
    → validate_results revision results c ≢ done tt t
unfolding validate_results monad
past_rejects revision results c t p = elim (Bool-cases (revision == c.revision)) [
  | inr e ↦ rw e (λ k. cc)
  | inl e ↦ rw (e, p.taken ((==_iff revision c.revision).0 e)) (λ k. cc)
]

done-settled :
    (revision : ℕ) (results : List AdapterActionResult) (c t : AdapterOperationCursor)
    → validate_results revision results c ≡ done tt t
    → (revision ≡ c.revision) × (t ≡ settled c)
unfolding validate_results monad
done-settled revision results c t h = elim (Bool-cases (revision == c.revision)) [
  | inr e ↦ let k = rw e at h in cc
  | inl e ↦ elim (Bool-cases c.awaiting_results) [
    | inr f ↦ let k = rw (e, f) at h in cc
    | inl f ↦ elim (Bool-cases (length results == length c.outstanding)) [
      | inr g ↦ let k = rw (e, f, g) at h in cc
      | inl g ↦ elim (Result-cases (check_results c.outstanding [] results)) [
        | inl r ↦
            let k = rw (e, f, g, r.1) at h in
            ((==_iff revision c.revision).0 e, sym (ap state_of k))
        | inr r ↦ let k = rw (e, f, g, r.1) at h in cc
      ]
    ]
  ]
]

done-IsPast :
    (revision : ℕ) (results : List AdapterActionResult) (c t : AdapterOperationCursor)
    → validate_results revision results c ≡ done tt t
    → IsPast revision t
done-IsPast revision results c t h =
    let (e, s) = done-settled revision results c t h in
    rw s record { reached = omega (arith, e); taken = λ k. refl }

-- The results of a revision are taken once: whatever is called after a result set was accepted, no
-- result set for the same revision is accepted again.
pub results-once :
    (revision : ℕ) (results : List AdapterActionResult) (c t : AdapterOperationCursor)
    → validate_results revision results c ≡ done tt t
    → (calls : List Call) (others : List AdapterActionResult) (u : AdapterOperationCursor)
    → validate_results revision others (run calls t) ≢ done tt u
results-once revision results c t h calls others u = past_rejects revision others (run calls t) u (
    Step-keeps (IsPast revision) (Step-IsPast revision) calls t
      (done-IsPast revision results c t h))
