-- ===== src/Utf8/Lossy.antt =====
-- Replacement makes any bytes well formed, and changes no well-formed ones.
use mathlib.Core.List.{append-nil, append_assoc}
use tabulark.Base.{
  ℕ, ◌≡◌, refl, sym, ap, ◌∙◌, true, [], ◌∷◌, ◌++◌, Option, none, some, inl, inr, Option-cases,
}
use tabulark.Text.{Bytes}
use tabulark.Utf8.{
  State, between, inside, advance, lead, is_valid_from, is_valid, replacement, begin, lossy_step,
  lossy_from, lossy,
}

-- The bytes `held` lead from the start of a character into the state `s`.
abbrev Leads : Bytes → State → Type 0
Leads held s = (ys : Bytes) → is_valid_from (some between) (held ++ ys) ≡ is_valid_from (some s) ys

valid_cons :
    (s : State) (b : ℕ) (bs : Bytes)
    → is_valid_from (some s) (b ∷ bs) ≡ is_valid_from (advance s b) bs
unfolding is_valid_from
valid_cons between b bs = refl
valid_cons (inside lo hi k) b bs = refl

replacement-Leads : Leads replacement between
unfolding is_valid_from
replacement-Leads ys = refl

Leads-snoc :
    (held : Bytes) (s t : State) (b : ℕ)
    → Leads held s
    → advance s b ≡ some t
    → Leads (held ++ b ∷ []) t
Leads-snoc held s t b h e ys =
    rw (append_assoc held (b ∷ []) ys)
      (h (b ∷ ys) ∙ valid_cons s b ys ∙ ap (λ o. is_valid_from o ys) e)

advance-between : (b : ℕ) → advance between b ≡ lead b
unfolding advance
advance-between b = refl

not_valid : (bs : Bytes) → is_valid_from none bs ≡ true → ⊥
unfolding is_valid_from
not_valid bs v = cc

-- What a step writes is well formed, and what it holds back leads into its state.
abbrev Sound : Bytes × State × Bytes → Type 0
Sound r = Leads r.0 between × Leads r.2 r.1

begin-Sound : (b : ℕ) → Sound (begin (lead b) b)
begin-Sound b = go (lead b) refl
  where
    go : (o : Option State) → lead b ≡ o → Sound (begin o b)
    go none e = (replacement-Leads, λ ys. refl)
    go (some between) e =
        (Leads-snoc [] between between b (λ ys. refl) (advance-between b ∙ e), λ ys. refl)
    go (some (inside lo hi k)) e =
        (λ ys. refl, Leads-snoc [] between (inside lo hi k) b (λ ys. refl) (advance-between b ∙ e))

step-Sound : (s : State) (held : Bytes) (b : ℕ) → Leads held s → Sound (lossy_step s held b)
unfolding lossy_step
step-Sound between held b h = begin-Sound b
step-Sound (inside lo hi k) held b h = go (advance (inside lo hi k) b) refl
  where
    go :
        (o : Option State)
        → advance (inside lo hi k) b ≡ o
        → Sound (lossy_step (inside lo hi k) held b)
    go none e =
        rw (e, lossy_step)
          (
            λ ys. replacement-Leads ((begin (lead b) b).0 ++ ys) ∙ (begin-Sound b).0 ys,
            (begin-Sound b).1,
          )
    go (some between) e =
        rw (e, lossy_step) (Leads-snoc held (inside lo hi k) between b h e, λ ys. refl)
    go (some (inside lo' hi' k')) e =
        rw (e, lossy_step) (λ ys. refl, Leads-snoc held (inside lo hi k) (inside lo' hi' k') b h e)

lossy_from-valid :
    (s : State) (held bs : Bytes)
    → Leads held s
    → is_valid_from (some between) (lossy_from s held bs) ≡ true
unfolding lossy_from is_valid_from
lossy_from-valid between held [] h = refl
lossy_from-valid (inside lo hi k) held [] h = refl
lossy_from-valid between held (b ∷ bs) h =
    let (out, rest) = step-Sound between held b h in
    out _ ∙ lossy_from-valid (lossy_step between held b).1 (lossy_step between held b).2 bs rest
lossy_from-valid (inside lo hi k) held (b ∷ bs) h =
    let (out, rest) = step-Sound (inside lo hi k) held b h in
    out _
    ∙ lossy_from-valid (lossy_step (inside lo hi k) held b).1 (lossy_step (inside lo hi k) held b).2
        bs rest

pub is_valid-lossy : (bs : Bytes) → is_valid (lossy bs) ≡ true
unfolding is_valid lossy
is_valid-lossy bs = lossy_from-valid between [] bs (λ ys. refl)

-- Between two characters nothing is held back.
abbrev Clean : State → Bytes → Type 0
Clean between held = held ≡ []
Clean (inside lo hi k) held = Unit {0}

-- A step inside well-formed bytes drops nothing.
abbrev Whole : State → Bytes → ℕ → Bytes × State × Bytes → Type 0
Whole t held b r = (r.0 ++ r.2 ≡ held ++ b ∷ []) × (r.1 ≡ t) × Clean r.1 r.2

step-Whole :
    (s : State) (held : Bytes) (b : ℕ) (t : State)
    → Clean s held
    → advance s b ≡ some t
    → Whole t held b (lossy_step s held b)
unfolding lossy_step
step-Whole between held b between c e = rw (e, c) (refl, refl, refl)
step-Whole between held b (inside lo hi k) c e = rw (e, c) (refl, refl, tt)
step-Whole (inside lo hi k) held b between c e = rw (e, lossy_step) (append-nil _, refl, refl)
step-Whole (inside lo hi k) held b (inside l h j) c e = rw (e, lossy_step) (refl, refl, tt)

lossy_from_step :
    (s : State) (held : Bytes) (b : ℕ) (bs : Bytes)
    → lossy_from s held (b ∷ bs)
      ≡ (lossy_step s held b).0 ++ lossy_from (lossy_step s held b).1 (lossy_step s held b).2 bs
unfolding lossy_from
lossy_from_step between held b bs = refl
lossy_from_step (inside lo hi k) held b bs = refl

lossy_from-id :
    (bs : Bytes) (s : State) (held : Bytes)
    → Clean s held
    → is_valid_from (some s) bs ≡ true
    → lossy_from s held bs ≡ held ++ bs
lossy_from-id [] between held c v = unfold lossy_from in rw c refl
lossy_from-id [] (inside lo hi k) held c v = unfold is_valid_from in cc
lossy_from-id (b ∷ bs) s held c v = elim (Option-cases (advance s b)) [
  | inl e ↦
      let w : is_valid_from none bs ≡ true = rw e at (sym (valid_cons s b bs) ∙ v) in
      absurd (not_valid bs w)
  | inr (t, e) ↦
      let (whole, to, clean) = step-Whole s held b t c e in
      let v' : is_valid_from (some (lossy_step s held b).1) bs ≡ true =
        ap (λ u. is_valid_from (some u) bs) to
        ∙ ap (λ o. is_valid_from o bs) (sym e)
        ∙ sym (valid_cons s b bs)
        ∙ v in
      lossy_from_step s held b bs
      ∙ ap (◌++◌ (lossy_step s held b).0)
          (lossy_from-id bs (lossy_step s held b).1 (lossy_step s held b).2 clean v')
      ∙ sym (append_assoc (lossy_step s held b).0 (lossy_step s held b).2 bs)
      ∙ ap (λ l. l ++ bs) whole
      ∙ append_assoc held (b ∷ []) bs
]

pub lossy_valid : (bs : Bytes) → is_valid bs ≡ true → lossy bs ≡ bs
unfolding is_valid lossy
lossy_valid bs v = lossy_from-id bs between [] refl v

valid_onto :
    (xs ys : Bytes) (s : State)
    → is_valid_from (some s) xs ≡ true
    → is_valid_from (some between) ys ≡ true
    → is_valid_from (some s) (xs ++ ys) ≡ true
valid_onto [] ys between h k = k
valid_onto [] ys (inside lo hi n) h k = unfold is_valid_from in cc
valid_onto (x ∷ xs) ys s h k = elim (Option-cases (advance s x)) [
  | inl e ↦
      let w : is_valid_from none xs ≡ true = rw e at (sym (valid_cons s x xs) ∙ h) in
      absurd (not_valid xs w)
  | inr (t, e) ↦
      valid_cons s x (xs ++ ys)
      ∙ ap (λ o. is_valid_from o (xs ++ ys)) e
      ∙ valid_onto xs ys t (ap (λ o. is_valid_from o xs) (sym e) ∙ sym (valid_cons s x xs) ∙ h) k
]

pub is_valid-append :
    (xs ys : Bytes) → is_valid xs ≡ true → is_valid ys ≡ true → is_valid (xs ++ ys) ≡ true
unfolding is_valid
is_valid-append xs ys h k = valid_onto xs ys between h k
