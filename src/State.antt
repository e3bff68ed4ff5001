-- ===== src/State.antt =====
-- Methods that take `&mut self` and return a `Result`: what they did to the state before they
-- failed stays done, so an outcome carries the state in both cases. The operations are shut, and
-- `monad` opens them all.
pub mod Keeps
use tabulark.Base.{Bool, true, false, Option, none, some, ◌≡◌, refl}
use tabulark.Error.{TabularkError, Result, ok, err}

pub data Outcome (S A : Type 0) : Type 0 where
  done : A → S → Outcome S A
  fail : TabularkError → S → Outcome S A

abbrev pub M : Type 0 → Type 0 → Type 0
M S A = S → Outcome S A

-- The state that an outcome leaves behind.
abbrev pub state_of : {S A : Type 0} → Outcome S A → S
state_of (done a s) = s
state_of (fail e s) = s

abbrev pub result_of : {S A : Type 0} → Outcome S A → Result A
result_of (done a s) = ok a
result_of (fail e s) = err e

unfoldable pub pure : {S A : Type 0} → A → M S A
pure a s = done a s

unfoldable pub throw : {S A : Type 0} → TabularkError → M S A
throw e s = fail e s

infixl 5 ◌>>=◌ ◌>>◌
unfoldable pub ◌>>=◌ : {S A B : Type 0} → M S A → (A → M S B) → M S B
◌>>=◌ m f s = elim (m s) [ done a s' ↦ f a s' | fail e s' ↦ fail e s' ]

unfoldable pub ◌>>◌ : {S B : Type 0} → M S (Unit {0}) → M S B → M S B
unfolding ◌>>=◌
m >> k = m >>= λ _. k

unfoldable pub get : {S : Type 0} → M S S
get s = done s s

unfoldable pub put : {S : Type 0} → S → M S (Unit {0})
put s' s = done tt s'

unfoldable pub modify : {S : Type 0} → (S → S) → M S (Unit {0})
modify f s = done tt (f s)

unfoldable pub lift : {S A : Type 0} → Result A → M S A
lift (ok a) s = done a s
lift (err e) s = fail e s

-- `if test { return Err(e) }`
unfoldable pub throw_if : {S : Type 0} → Bool → TabularkError → M S (Unit {0})
throw_if true e s = fail e s
throw_if false e s = done tt s

unfoldable pub some_or : {S A : Type 0} → Option A → TabularkError → M S A
some_or none e s = fail e s
some_or (some a) e s = done a s

unfoldable pub monad : Unit {0}
unfolding pure throw ◌>>=◌ ◌>>◌ get put modify lift throw_if some_or
monad = tt

-- Inversion of a sequence that succeeded.
pub >>=-done :
    {S A B : Type 0} (m : M S A) (f : A → M S B) (s t : S) (b : B)
    → (m >>= f) s ≡ done b t
    → (a : A) × (u : S) × (m s ≡ done a u) × (f a u ≡ done b t)
unfolding ◌>>=◌
>>=-done {S} {A} {B} m f s t b h = go (m s) refl h
  where
    go :
        (o : Outcome S A)
        → m s ≡ o
        → elim o [ done a u ↦ f a u | fail e u ↦ fail e u ] ≡ done b t
        → (a : A) × (u : S) × (m s ≡ done a u) × (f a u ≡ done b t)
    go (done a u) e k = (a, u, e, k)
    go (fail x u) e k = cc

-- Sequences of methods that do the same.
pub >>=-same :
    {S A B : Type 0} (m n : M S A) (f g : A → M S B) (s : S)
    → m s ≡ n s
    → ((a : A) (t : S) → f a t ≡ g a t)
    → (m >>= f) s ≡ (n >>= g) s
unfolding ◌>>=◌
>>=-same {S} {A} {B} m n f g s e h = rw (◌>>=◌, e) (go (n s))
  where
    go :
        (o : Outcome S A)
        → elim o as (λ _. Outcome S B) [ done a t ↦ f a t | fail x t ↦ fail x t ]
          ≡ elim o as (λ _. Outcome S B) [ done a t ↦ g a t | fail x t ↦ fail x t ]
    go (done a t) = h a t
    go (fail x t) = refl

-- A sequence whose first method succeeds.
pub >>=-step :
    {S A B : Type 0} (m : M S A) (f : A → M S B) (s t : S) (a : A) (o : Outcome S B)
    → m s ≡ done a t
    → f a t ≡ o
    → (m >>= f) s ≡ o
unfolding ◌>>=◌
>>=-step m f s t a o e h = rw (◌>>=◌, e) h
