-- ===== src/Protocol/Actions/Exact.antt =====
-- Which steps `validate_operation_actions` (protocol.rs) accepts, and with which total.
use tabulark.Base.{
  ℕ, ◌+◌, ◌*◌, ◌≤◌, ◌≡◌, ◌≢◌, ◌↔◌, refl, ap, ◌∙◌, subst, arith, false, List, [], ◌∷◌, All, length,
  map, u64_max,
}
use tabulark.Error.{Result, ok, err}
use tabulark.Model.Range.{max_safe_integer}
use tabulark.Protocol.Actions.{
  AdapterAction, end, contains, is_unsafe, check_actions, validate_operation_actions, max_ranges,
}

abbrev pub index_of : AdapterAction → ℕ
index_of a = a.action_index

-- No number stands twice.
abbrev pub Distinct : List ℕ → Type 0
Distinct [] = Unit
Distinct (i ∷ l) = All (λ j. j ≢ i) l × Distinct l

abbrev pub IsSafeAction : AdapterAction → Type 0
IsSafeAction a = a.offset + a.length ≤ max_safe_integer

abbrev pub total_of : List AdapterAction → ℕ
total_of [] = 0
total_of (a ∷ actions) = a.length + total_of actions

-- A step that may be issued within a budget.
pub record IsStep (actions : List AdapterAction) (budget : ℕ) : Type 0 where
  pub few : length actions ≤ max_ranges
  pub distinct : Distinct (map index_of actions)
  pub safe : All IsSafeAction actions
  pub within : total_of actions ≤ budget

-- The numbers that are not among `ids`.
abbrev pub IsNew : List ℕ → ℕ → Type 0
IsNew ids i = contains i ids ≡ false

-- What the loop requires of the actions ahead.
record IsChecked (ids : List ℕ) (actions : List AdapterAction) : Type 0 where
  new : All (IsNew ids) (map index_of actions)
  distinct : Distinct (map index_of actions)
  safe : All IsSafeAction actions

check_actions-head :
    (ids : List ℕ) (total : ℕ) (a : AdapterAction) (actions : List AdapterAction) (t : ℕ)
    → check_actions ids total (a ∷ actions) ≡ ok t
    → IsNew ids a.action_index
      × IsSafeAction a
      × (check_actions (a.action_index ∷ ids) (total + a.length) actions ≡ ok t)
unfolding check_actions is_unsafe end
check_actions-head ids total a actions t h = ground arith

check_actions-cons :
    (ids : List ℕ) (total : ℕ) (a : AdapterAction) (actions : List AdapterAction) (t : ℕ)
    → IsNew ids a.action_index
    → IsSafeAction a
    → total + a.length ≤ u64_max
    → check_actions (a.action_index ∷ ids) (total + a.length) actions ≡ ok t
    → check_actions ids total (a ∷ actions) ≡ ok t
unfolding check_actions is_unsafe end
check_actions-cons ids total a actions t n s b h = ground arith

-- A number that is new to `i ∷ ids` is new to `ids` and is not `i`, and back.
pub new-split :
    (i : ℕ) (ids l : List ℕ) → All (IsNew (i ∷ ids)) l → All (IsNew ids) l × All (λ j. j ≢ i) l
new-split i ids [] h = (tt, tt)
new-split i ids (j ∷ l) h =
    let rest = new-split i ids l h.1 in ((ground arith, rest.0), (ground arith, rest.1))

pub new-join :
    (i : ℕ) (ids l : List ℕ) → All (IsNew ids) l → All (λ j. j ≢ i) l → All (IsNew (i ∷ ids)) l
new-join i ids [] h k = tt
new-join i ids (j ∷ l) h k = (ground arith, new-join i ids l h.1 k.1)

check_actions_sound :
    (ids : List ℕ) (total : ℕ) (actions : List AdapterAction) (t : ℕ)
    → check_actions ids total actions ≡ ok t
    → IsChecked ids actions × (t ≡ total + total_of actions)
unfolding check_actions
check_actions_sound ids total [] t h = (record { new = tt; distinct = tt; safe = tt }, ground arith)
check_actions_sound ids total (a ∷ actions) t h =
    let (n, s, k) = check_actions-head ids total a actions t h in
    let (c, e) = check_actions_sound (a.action_index ∷ ids) (total + a.length) actions t k in
    let (new, apart) = new-split a.action_index ids (map index_of actions) c.new in
    (record { new = (n, new); distinct = (apart, c.distinct); safe = (s, c.safe) }, omega arith)

check_actions_complete :
    (ids : List ℕ) (total : ℕ) (actions : List AdapterAction)
    → IsChecked ids actions
    → total + length actions * max_safe_integer ≤ u64_max
    → check_actions ids total actions ≡ ok (total + total_of actions)
unfolding check_actions
check_actions_complete ids total [] c b = ground arith
check_actions_complete ids total (a ∷ actions) c b =
    check_actions-cons ids total a actions (total + total_of (a ∷ actions)) c.new.0 c.safe.0
      (omega (arith, c.safe.0))
      (subst (λ n. check_actions (a.action_index ∷ ids) (total + a.length) actions ≡ ok n)
        (omega arith)
        (check_actions_complete (a.action_index ∷ ids) (total + a.length) actions
          (record {
            new = new-join a.action_index ids (map index_of actions) c.new.1 c.distinct.0;
            distinct = c.distinct.1;
            safe = c.safe.1;
          })
          (omega (arith, c.safe.0))))

pub all_new : (l : List ℕ) → All (IsNew []) l
all_new [] = tt
all_new (i ∷ l) = (refl, all_new l)

validate-head :
    (actions : List AdapterAction) (budget t : ℕ)
    → (validate_operation_actions actions budget ≡ ok t)
      ↔ ((length actions ≤ max_ranges) × (check_actions [] 0 actions ≡ ok t) × (t ≤ budget))
unfolding validate_operation_actions
validate-head actions budget t = (λ h. go (check_actions [] 0 actions) refl h, λ h. ground arith)
  where
    go :
        (r : Result ℕ)
        → check_actions [] 0 actions ≡ r
        → validate_operation_actions actions budget ≡ ok t
        → (length actions ≤ max_ranges) × (check_actions [] 0 actions ≡ ok t) × (t ≤ budget)
    go (ok n) e h = ground arith
    go (err x) e h = ground arith

-- The actions of a step are accepted exactly if there are at most 32 of them, no identifier stands
-- twice, each range ends at a safe integer, and their bytes are within the budget; the answer is
-- the sum of their bytes.
pub validate_operation_actions-exact :
    (actions : List AdapterAction) (budget t : ℕ)
    → (validate_operation_actions actions budget ≡ ok t)
      ↔ (IsStep actions budget × (t ≡ total_of actions))
unfolding validate_operation_actions
validate_operation_actions-exact actions budget t = (
  λ h.
      let (few, k, within) = (validate-head actions budget t).0 h in
      let (c, e) = check_actions_sound [] 0 actions t k in
      (
        record { few = few; distinct = c.distinct; safe = c.safe; within = omega arith },
        omega arith,
      ),
  λ h.
      let s = h.0 in
      let c : IsChecked [] actions = record {
        new = all_new (map index_of actions);
        distinct = s.distinct;
        safe = s.safe;
      } in
      (validate-head actions budget t).1 (
        s.few,
        check_actions_complete [] 0 actions c (omega (arith, s.few))
            ∙ ap ok {x = 0 + total_of actions} {y = t} (omega (arith, h.1)),
        omega (arith, s.within),
      ),
)
