-- ===== src/Protocol/Matching/Exact.antt =====
-- What `check_results` (protocol.rs) accepts: results that answer the actions one by one.
use tabulark.Base.{
  ℕ, ◌≡◌, ◌≢◌, ◌⊎◌, ◌↔◌, inl, inr, refl, sym, ap, ◌∙◌, arith, true, false, List, [], ◌∷◌, Option,
  none, some, All, Any, All-member, Any-map, length-map, All-map_member, ◌==◌, ==_iff, Bool-cases,
  length, map,
}
use mathlib.Core.Option.{some-injective}
use tabulark.Error.{ok, seq_iff, fail_if_iff}
use tabulark.Protocol.Actions.{AdapterAction, AdapterActionResult, end, contains}
use tabulark.Protocol.Actions.Exact.{index_of, Distinct, IsSafeAction, IsNew, new-split, new-join}
use tabulark.Protocol.Matching.{find_action, differs, check_result, check_results}
use tabulark.Protocol.Matching.Pigeonhole.{pigeonhole}

abbrev pub result_index : AdapterActionResult → ℕ
result_index r = r.action_index

-- A result names an action and is for its bytes.
abbrev pub Matches : AdapterAction → AdapterActionResult → Type 0
Matches a r = (a.action_index ≡ r.action_index) × (a.offset ≡ r.offset) × (a.length ≡ r.length)

abbrev pub Asked : List AdapterAction → AdapterActionResult → Type 0
Asked outstanding r = Any (λ a. Matches a r) outstanding

find_action-Any :
    (i : ℕ) (actions : List AdapterAction) (a : AdapterAction)
    → find_action i actions ≡ some a
    → Any (λ b. (b ≡ a) × (b.action_index ≡ i)) actions
unfolding find_action
find_action-Any i [] a h = cc
find_action-Any i (b ∷ actions) a h = elim (Bool-cases (b.action_index == i)) [
  | inl e ↦ inl (some-injective b a (rw e at h), (==_iff b.action_index i).0 e)
  | inr e ↦ inr (find_action-Any i actions a (rw e at h))
]

check_result-found :
    (outstanding : List AdapterAction) (r : AdapterActionResult)
    → check_result outstanding r ≡ ok tt
    → (a : AdapterAction) × (find_action r.action_index outstanding ≡ some a)
      × (a.offset ≡ r.offset)
      × (a.length ≡ r.length)
unfolding check_result differs end
check_result-found outstanding r h = go (find_action r.action_index outstanding) refl h
  where
    go :
        (o : Option AdapterAction)
        → find_action r.action_index outstanding ≡ o
        → check_result outstanding r ≡ ok tt
        → (a : AdapterAction) × (find_action r.action_index outstanding ≡ some a)
          × (a.offset ≡ r.offset)
          × (a.length ≡ r.length)
    go none e k = ground arith
    go (some a) e k = (a, e, ground arith, ground arith)

check_result-Asked :
    (outstanding : List AdapterAction) (r : AdapterActionResult)
    → check_result outstanding r ≡ ok tt
    → Asked outstanding r
check_result-Asked outstanding r h =
    let (a, e, o, l) = check_result-found outstanding r h in
    Any-map outstanding (λ b m. (m.1, ap (λ x. x.offset) m.0 ∙ o, ap (λ x. x.length) m.0 ∙ l))
      (find_action-Any r.action_index outstanding a e)

-- A result for an action is not for one of other identifiers.
Asked-ne :
    (outstanding : List AdapterAction) (r : AdapterActionResult) (i : ℕ)
    → All (λ j. j ≢ i) (map index_of outstanding)
    → Asked outstanding r
    → r.action_index ≢ i
Asked-ne [] r i n h = absurd h
Asked-ne (a ∷ outstanding) r i n (inl m) = λ e. n.0 (m.0 ∙ e)
Asked-ne (a ∷ outstanding) r i n (inr h) = Asked-ne outstanding r i n.1 h

Asked-found :
    (outstanding : List AdapterAction) (r : AdapterActionResult)
    → All IsSafeAction outstanding
    → Distinct (map index_of outstanding)
    → Asked outstanding r
    → (a : AdapterAction) × (find_action r.action_index outstanding ≡ some a)
      × Matches a r
      × IsSafeAction a
unfolding find_action
Asked-found [] r s d h = absurd h
Asked-found (a ∷ outstanding) r s d (inl m) =
    (a, rw ((==_iff a.action_index r.action_index).1 m.0) refl, m, s.0)
Asked-found (a ∷ outstanding) r s d (inr h) =
    let (b, e, m, k) = Asked-found outstanding r s.1 d.1 h in
    (b, go (Bool-cases (a.action_index == r.action_index)) e, m, k)
  where
    go :
        {b : AdapterAction}
        → ((a.action_index == r.action_index) ≡ true) ⊎ ((a.action_index == r.action_index) ≡ false)
        → find_action r.action_index outstanding ≡ some b
        → find_action r.action_index (a ∷ outstanding) ≡ some b
    go (inl t) e = absurd (
        Asked-ne outstanding r a.action_index d.0 h
          (sym ((==_iff a.action_index r.action_index).0 t)))
    go (inr t) e = rw t e

Asked-check_result :
    (outstanding : List AdapterAction) (r : AdapterActionResult)
    → All IsSafeAction outstanding
    → Distinct (map index_of outstanding)
    → Asked outstanding r
    → check_result outstanding r ≡ ok tt
unfolding check_result differs end
Asked-check_result outstanding r s d h =
    let (a, e, m, k) = Asked-found outstanding r s d h in passes a e m k
  where
    passes :
        (a : AdapterAction)
        → find_action r.action_index outstanding ≡ some a
        → Matches a r
        → IsSafeAction a
        → check_result outstanding r ≡ ok tt
    passes a e m k = rw e ground arith

-- What the loop accepts, with the identifiers seen so far.
pub record IsAnswering (outstanding : List AdapterAction) (seen : List ℕ)
    (results : List AdapterActionResult) : Type 0 where
  pub new : All (IsNew seen) (map result_index results)
  pub distinct : Distinct (map result_index results)
  pub asked : All (Asked outstanding) results

module _ (outstanding : List AdapterAction) (s : All IsSafeAction outstanding)
    (d : Distinct (map index_of outstanding)) where
  check_results-head :
      (seen : List ℕ) (r : AdapterActionResult) (results : List AdapterActionResult)
      → (check_results outstanding seen (r ∷ results) ≡ ok tt) ↔ (
          IsNew seen r.action_index
          × (Asked outstanding r
              × (check_results outstanding (r.action_index ∷ seen) results ≡ ok tt)))
  unfolding check_results
  check_results-head seen r results = seq_iff _ (fail_if_iff (contains r.action_index seen) _) λ _.
      seq_iff (check_result outstanding r)
        (check_result-Asked outstanding r, Asked-check_result outstanding r s d)
        (λ _. (λ h. h, λ h. h))

  pub check_results-IsAnswering :
      (seen : List ℕ) (results : List AdapterActionResult)
      → (check_results outstanding seen results ≡ ok tt) ↔ IsAnswering outstanding seen results
  unfolding check_results
  check_results-IsAnswering seen [] =
      (λ h. record { new = tt; distinct = tt; asked = tt }, λ h. refl)
  check_results-IsAnswering seen (r ∷ results) =
      let head = check_results-head seen r results in
      let rest = check_results-IsAnswering (r.action_index ∷ seen) results in
      (
        λ h.
            let (n, (a, k)) = head.0 h in
            let q = rest.0 k in
            let (new, apart) = new-split r.action_index seen (map result_index results) q.new in
            record { new = (n, new); distinct = (apart, q.distinct); asked = (a, q.asked) },
        λ q. head.1 (
          q.new.0,
          (
            q.asked.0,
            rest.1 (record {
              new = new-join r.action_index seen (map result_index results) q.new.1 q.distinct.0;
              distinct = q.distinct.1;
              asked = q.asked.1;
            }),
          ),
        ),
      )

Asked-contains :
    (outstanding : List AdapterAction) (results : List AdapterActionResult)
    → All (Asked outstanding) results
    → All (λ i. contains i (map index_of outstanding) ≡ true) (map result_index results)
Asked-contains outstanding [] h = tt
Asked-contains outstanding (r ∷ results) h =
    (go outstanding h.0, Asked-contains outstanding results h.1)
  where
    go :
        (actions : List AdapterAction)
        → Asked actions r
        → contains r.action_index (map index_of actions) ≡ true
    go [] m = absurd m
    go (a ∷ actions) (inl m) = ground (arith, m.0)
    go (a ∷ actions) (inr m) = ground (arith, go actions m)

-- The result for an identifier that a member of the actions has matches that member.
Asked-member :
    (outstanding : List AdapterAction) (a : AdapterAction) (r : AdapterActionResult)
    → Distinct (map index_of outstanding)
    → Any (λ b. b ≡ a) outstanding
    → Asked outstanding r
    → a.action_index ≡ r.action_index
    → Matches a r
Asked-member [] a r d m h e = absurd m
Asked-member (b ∷ outstanding) a r d (inl m) (inl h) e =
    (e, ap (λ x. x.offset) (sym m) ∙ h.1, ap (λ x. x.length) (sym m) ∙ h.2)
Asked-member (b ∷ outstanding) a r d (inl m) (inr h) e =
    absurd (Asked-ne outstanding r b.action_index d.0 h (sym e ∙ ap index_of (sym m)))
Asked-member (b ∷ outstanding) a r d (inr m) (inl h) e =
    absurd (member-ne outstanding d.0 m (e ∙ sym h.0))
  where
    member-ne :
        (actions : List AdapterAction)
        → All (λ j. j ≢ b.action_index) (map index_of actions)
        → Any (λ c. c ≡ a) actions
        → a.action_index ≢ b.action_index
    member-ne [] n k = absurd k
    member-ne (c ∷ actions) n (inl k) = λ f. n.0 (ap index_of k ∙ f)
    member-ne (c ∷ actions) n (inr k) = member-ne actions n.1 k
Asked-member (b ∷ outstanding) a r d (inr m) (inr h) e = Asked-member outstanding a r d.1 m h e

-- As many results as actions, each for an action and none twice, answer every action.
pub answers_all :
    (outstanding : List AdapterAction) (results : List AdapterActionResult)
    → Distinct (map index_of outstanding)
    → Distinct (map result_index results)
    → length results ≡ length outstanding
    → All (Asked outstanding) results
    → All (λ a. Any (Matches a) results) outstanding
answers_all outstanding results d k e h =
    All-member (λ a. Any (Matches a) results) outstanding
      λ a m. answer a m results h (
        All-map_member (λ i. contains i (map result_index results) ≡ true) index_of outstanding a
          covered m)
  where
    covered : All (λ i. contains i (map result_index results) ≡ true) (map index_of outstanding)
    covered =
        pigeonhole (map result_index results) (map index_of outstanding) k
          (length-map result_index results ∙ e ∙ sym (length-map index_of outstanding))
          (Asked-contains outstanding results h)

    answer :
        (a : AdapterAction)
        → Any (λ b. b ≡ a) outstanding
        → (rs : List AdapterActionResult) → All (Asked outstanding) rs
        → contains a.action_index (map result_index rs) ≡ true
        → Any (Matches a) rs
    answer a m [] q c = cc
    answer a m (r ∷ rs) q c = elim (Bool-cases (a.action_index == r.action_index)) [
      | inl t ↦
          inl (Asked-member outstanding a r d m q.0 ((==_iff a.action_index r.action_index).0 t))
      | inr t ↦ inr (answer a m rs q.1 (rw t at c))
    ]
