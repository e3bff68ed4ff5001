-- ===== src/Excel/Zip/Ensures.antt =====
-- What holds of the results of the ZIP functions (range.rs) where they succeed.
use tabulark.Base.{◌≡◌, refl, Bool, true, false, if◌then◌else◌}
use tabulark.Error.{Result, ok, err, TabularkError, ◌>>=◌, fail_if}

-- What holds of a success.
unfoldable pub Ensures : {A : Type 0} → (A → Type 0) → Result A → Type 0
Ensures P (err failure) = Unit
Ensures P (ok value) = P value

pub Ensures-step :
    {A B : Type 0} (Q : A → Type 0) (P : B → Type 0) (r : Result A) (k : A → Result B)
    → Ensures Q r
    → ((a : A) → Q a → Ensures P (k a))
    → Ensures P (r >>= k)
unfolding Ensures
Ensures-step Q P (err failure) k q h = tt
Ensures-step Q P (ok value) k q h = h value q

pub Ensures-any : {A : Type 0} (r : Result A) → Ensures (λ _. Unit) r
unfolding Ensures
Ensures-any (err failure) = tt
Ensures-any (ok value) = tt

pub Ensures-then :
    {A B : Type 0} (P : B → Type 0) (r : Result A) (k : A → Result B)
    → ((a : A) → Ensures P (k a))
    → Ensures P (r >>= k)
Ensures-then P r k h = Ensures-step (λ _. Unit) P r k (Ensures-any r) (λ a _. h a)

pub Ensures-guard :
    (b : Bool) (failure : TabularkError) → Ensures (λ _. b ≡ false) (fail_if b failure)
unfolding Ensures
Ensures-guard true failure = tt
Ensures-guard false failure = refl

pub Ensures-err : {A : Type 0} (P : A → Type 0) (failure : TabularkError) → Ensures P (err failure)
unfolding Ensures
Ensures-err P failure = tt

pub Ensures-ok : {A : Type 0} (P : A → Type 0) (a : A) → Ensures P (ok a) → P a
unfolding Ensures
Ensures-ok P a h = h

pub Ensures-if :
    {A : Type 0} (P : A → Type 0) (b : Bool) (r s : Result A)
    → Ensures P r
    → Ensures P s
    → Ensures P (if b then r else s)
unfolding Ensures
Ensures-if P true r s h k = h
Ensures-if P false r s h k = k

pub Ensures-value : {A : Type 0} (P : A → Type 0) (a : A) → P a → Ensures P (ok a)
unfolding Ensures
Ensures-value P a h = h

-- Continuations that agree on what a result may be.
pub Ensures-same :
    {A B : Type 0} (Q : A → Type 0) (r : Result A) (k l : A → Result B)
    → Ensures Q r
    → ((a : A) → Q a → k a ≡ l a)
    → (r >>= k) ≡ (r >>= l)
unfolding Ensures
Ensures-same Q (err failure) k l h e = refl
Ensures-same Q (ok value) k l h e = e value h
