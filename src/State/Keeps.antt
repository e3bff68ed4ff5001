-- ===== src/State/Keeps.antt =====
-- Methods that keep an invariant, if they succeed or if they fail: a rule for each operation.
use tabulark.Base.{Bool, true, false, Option, none, some, if◌then◌else◌}
use tabulark.Error.{TabularkError, Result, ok, err}
use tabulark.State.{
  Outcome, done, fail, M, state_of, pure, throw, ◌>>=◌, ◌>>◌, get, modify, lift, throw_if, some_or,
}

pub record Keeps {S A : Type 0} (P : S → Type 0) (m : M S A) : Type 0 where
  pub keep : (s : S) → P s → P (state_of (m s))

module _ {S : Type 0} {P : S → Type 0} where
  pub Keeps-bind :
      {A B : Type 0} {m : M S A} {f : A → M S B}
      → Keeps P m
      → ((a : A) → Keeps P (f a))
      → Keeps P (m >>= f)
  unfolding ◌>>=◌
  Keeps-bind {A} {B} {m} {f} hm hf = record { keep = λ s p. go (m s) (hm.keep s p) }
    where
      go :
          (o : Outcome S A)
          → P (state_of o)
          → P (state_of (elim o [ done a s' ↦ f a s' | fail e s' ↦ fail e s' ]))
      go (done a s') q = (hf a).keep s' q
      go (fail e s') q = q

  pub Keeps-seq :
      {B : Type 0} {m : M S (Unit {0})} {k : M S B} → Keeps P m → Keeps P k → Keeps P (m >> k)
  unfolding ◌>>◌
  Keeps-seq hm hk = Keeps-bind hm (λ _. hk)

  pub Keeps-get : Keeps P get
  unfolding get
  Keeps-get = record { keep = λ s p. p }

  pub Keeps-modify : (g : S → S) → ((s : S) → P s → P (g s)) → Keeps P (modify g)
  unfolding modify
  Keeps-modify g h = record { keep = h }

  pub Keeps-pure : {A : Type 0} (a : A) → Keeps P (pure a)
  unfolding pure
  Keeps-pure a = record { keep = λ s p. p }

  pub Keeps-throw : {A : Type 0} (e : TabularkError) → Keeps P (throw {A = A} e)
  unfolding throw
  Keeps-throw e = record { keep = λ s p. p }

  pub Keeps-lift : {A : Type 0} (r : Result A) → Keeps P (lift r)
  unfolding lift
  Keeps-lift (ok a) = record { keep = λ s p. p }
  Keeps-lift (err e) = record { keep = λ s p. p }

  pub Keeps-throw_if : (b : Bool) (e : TabularkError) → Keeps P (throw_if b e)
  unfolding throw_if
  Keeps-throw_if true e = record { keep = λ s p. p }
  Keeps-throw_if false e = record { keep = λ s p. p }

  pub Keeps-some_or : {A : Type 0} (o : Option A) (e : TabularkError) → Keeps P (some_or o e)
  unfolding some_or
  Keeps-some_or none e = record { keep = λ s p. p }
  Keeps-some_or (some a) e = record { keep = λ s p. p }

  pub Keeps-if :
      {A : Type 0} (b : Bool) {m n : M S A} → Keeps P m → Keeps P n → Keeps P (if b then m else n)
  Keeps-if true hm hn = hm
  Keeps-if false hm hn = hn

-- A last step that leads from one invariant to a weaker one.
pub seq-leads :
    {S B : Type 0} {P Q : S → Type 0} (m : M S (Unit {0})) (k : M S B)
    → Keeps P m
    → ((s : S) → P s → Q s)
    → ((s : S) → P s → Q (state_of (k s)))
    → (s : S) → P s
    → Q (state_of ((m >> k) s))
unfolding ◌>>=◌ ◌>>◌
seq-leads {S} {B} {P} {Q} m k hm weaken last s p = go (m s) (hm.keep s p)
  where
    go :
        (o : Outcome S (Unit {0}))
        → P (state_of o)
        → Q (state_of (elim o [ done a s' ↦ k s' | fail e s' ↦ fail e s' ]))
    go (done a s') q = last s' q
    go (fail e s') q = weaken s' q

pub ruleset keeps = (
  Keeps-bind, Keeps-seq, Keeps-get, Keeps-pure, Keeps-throw, Keeps-lift, Keeps-throw_if,
  Keeps-some_or, Keeps-if,
)
