-- ===== src/Error.antt =====
-- src/error.rs: the error value, and `Result` over it.
use tabulark.Base.{
  ℕ, ◌≡◌, refl, Bool, true, false, List, [], ◌∷◌, Option, none, some, String, if◌then◌else◌, ◌⊎◌,
  ◌↔◌, inl, inr,
}
use tabulark.Text.{Bytes}
use text.Mathlib.Text.{◌==◌ as str_eq}

pub data ErrorCode : Type 0 where
  invalid_argument invalid_range range_not_indexed resource_limit cancelled : ErrorCode
  handle_closed protocol_incompatible parse_failed runtime_failure : ErrorCode
  unsupported_runtime unsupported_feature : ErrorCode

-- The JSON values that the details of an error carry.
pub data Detail : Type 0 where
  number : ℕ → Detail
  string : String → Detail
  -- a text that the model holds as UTF-8
  utf8_string : Bytes → Detail

pub record TabularkError : Type 0 where
  pub code : ErrorCode
  pub message : String
  pub retryable : Bool
  pub details : List (String × Detail)

unfoldable pub new : ErrorCode → String → TabularkError
new code message = record { code = code; message = message; retryable = false; details = [] }

unfoldable pub with_retryable : TabularkError → Bool → TabularkError
with_retryable e retryable = record e { retryable = retryable }

-- `Map::insert`
insert_detail : String → Detail → List (String × Detail) → List (String × Detail)
insert_detail k v [] = (k, v) ∷ []
insert_detail k v ((j, w) ∷ m) = if str_eq j k then (k, v) ∷ m else (j, w) ∷ insert_detail k v m

unfoldable pub with_detail : TabularkError → String → Detail → TabularkError
unfolding insert_detail
with_detail e k v = record e { details = insert_detail k v e.details }

pub data Result {ℓ} (A : Type ℓ) : Type ℓ where
  ok : A → Result A
  err : TabularkError → Result A

-- `?` on a result.
infixl 5 ◌>>◌ ◌>>=◌
abbrev pub ◌>>=◌ {ℓ κ} : {B : Type κ} {A : Type ℓ} → Result A → (A → Result B) → Result B
err failure >>= next = err failure
ok value >>= next = next value

abbrev pub ◌>>◌ {ℓ} : {B : Type ℓ} → Result (Unit {0}) → Result B → Result B
check >> next = check >>= λ _. next

-- `if test { return Err(e) }`
abbrev pub fail_if : Bool → TabularkError → Result (Unit {0})
fail_if true e = err e
fail_if false e = ok tt

abbrev pub ok_or {ℓ} : {A : Type ℓ} → Option A → TabularkError → Result A
ok_or none e = err e
ok_or (some a) e = ok a

-- The code of a failure; `none` for a success.
abbrev pub code_of {ℓ} : {A : Type ℓ} → Result A → Option ErrorCode
code_of (ok a) = none
code_of (err e) = some e.code

-- Neither builder changes the code.
pub code-new : (c : ErrorCode) (m : String) → (new c m).code ≡ c
unfolding new
code-new c m = refl

pub code-with_detail :
    (e : TabularkError) (k : String) (v : Detail) → (with_detail e k v).code ≡ e.code
unfolding with_detail
code-with_detail e k v = refl

pub code-with_retryable : (e : TabularkError) (r : Bool) → (with_retryable e r).code ≡ e.code
unfolding with_retryable
code-with_retryable e r = refl

pub ruleset codes = (code-new, code-with_detail, code-with_retryable)

pub Result-cases {ℓ} :
    {A : Type ℓ} (r : Result A) → ((a : A) × (r ≡ ok a)) ⊎ ((e : TabularkError) × (r ≡ err e))
Result-cases (ok a) = inl (a, refl)
Result-cases (err e) = inr (e, refl)

-- Two checks in a row pass if both do.
pub seq_iff :
    {P Q : Type 0} (m : Result (Unit {0})) {n : Result (Unit {0})}
    → (m ≡ ok tt) ↔ P
    → (P → (n ≡ ok tt) ↔ Q)
    → (m >> n ≡ ok tt) ↔ (P × Q)
seq_iff (ok u) p q = (λ h. (p.0 refl, (q (p.0 refl)).0 h), λ h. (q h.0).1 h.1)
seq_iff (err e) p q = (λ h. cc, λ h. let k = p.1 h.0 in cc)

pub fail_if_iff : (b : Bool) (e : TabularkError) → (fail_if b e ≡ ok (tt {0})) ↔ (b ≡ false)
fail_if_iff true e = (λ h. cc, λ h. cc)
fail_if_iff false e = (λ h. refl, λ h. refl)
