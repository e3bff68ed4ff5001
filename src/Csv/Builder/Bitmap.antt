-- ===== src/Csv/Builder/Bitmap.antt =====
-- The validity bitmap of a column (csv.rs).
use Prim.Native.Nat.{bit_or, bit_and-bitwise}
use native.Mathlib.Decide.{ℕ_discrete, dec_lt}
use tabulark.Base.{
  ℕ, zero, suc, ◌+◌, ◌/◌, ◌%◌, ◌^◌, ◌<◌, ◌≡◌, refl, Bool, true, false, not, ◌&&◌, [], ◌∷◌, ◌++◌,
  arith, sym, ltb, ltb→lt, ◌==◌, if◌then◌else◌, Option, none, some, length, get_elem?, set, All,
  get_elem?-lt, get_elem?-set_self, get_elem?-set_ne, ap, ◌∙◌, get_elem?-append_left,
  get_elem?-length, get_elem?-ge, length-append, length-set, All-append, subst, Bool-cases, inl,
  inr, leb,
}
use tabulark.Text.{Bytes}
use tabulark.Model.Strings.{is_set, bit, bit_of}
use tabulark.Csv.Builder.{grown, set_bit, or_bit}

-- The test holds of every number below `k`.
every : (ℕ → Bool) → ℕ → Bool
every test zero = true
every test (suc k) = every test k && test k

every_lem : (test : ℕ → Bool) (k i : ℕ) → i < k → every test k ≡ true → test i ≡ true
unfolding every
every_lem test zero i lt e = absurd (omega arith)
every_lem test (suc k) i lt e = ground (arith, every_lem test k i)

abbrev same : Bool → Bool → Bool
same true b = b
same false b = not b

table :
    every
      (λ j.
        every
          (λ k.
            every
              (λ byte. same (bit (bit_or byte (2 ^ k)) j) (if j == k then true else bit byte j))
              256)
          8)
      8
    ≡ true
unfolding every
table = refl

bit-bit_or :
    (byte k j : ℕ)
    → byte < 256
    → k < 8
    → j < 8
    → bit (bit_or byte (2 ^ k)) j ≡ (if j == k then true else bit byte j)
bit-bit_or byte k j hb hk hj =
    same_eq _ _ (every_lem _ 256 byte hb (every_lem _ 8 k hk (every_lem _ 8 j hj table)))
  where
    same_eq : (a b : Bool) → same a b ≡ true → a ≡ b
    same_eq true b h = sym h
    same_eq false true h = h
    same_eq false false h = refl

or_table : every (λ k. every (λ byte. ltb (bit_or byte (2 ^ k)) 256) 256) 8 ≡ true
unfolding every
or_table = refl

bit_or-lt : (byte k : ℕ) → byte < 256 → k < 8 → bit_or byte (2 ^ k) < 256
bit_or-lt byte k hb hk = ltb→lt _ _ (every_lem _ 256 byte hb (every_lem _ 8 k hk or_table))

abbrev pub AreBytes : Bytes → Type 0
AreBytes = All (λ b. b < 256)

AreBytes-get : (bs : Bytes) (i b : ℕ) → AreBytes bs → get_elem? bs i ≡ some b → b < 256
AreBytes-get [] i b h e = cc
AreBytes-get (x ∷ bs) zero b h e = ground (arith, h)
AreBytes-get (x ∷ bs) (suc i) b h e = AreBytes-get bs i b h.1 e

AreBytes-set : (bs : Bytes) (i v : ℕ) → AreBytes bs → v < 256 → AreBytes (set bs i v)
AreBytes-set [] i v h lt = tt
AreBytes-set (x ∷ bs) zero v h lt = (lt, h.1)
AreBytes-set (x ∷ bs) (suc i) v h lt = (h.0, AreBytes-set bs i v h.1 lt)

-- Bit `i` after bit `n` was set.
pub is_set-set_bit :
    (n i : ℕ) (v : Bytes)
    → AreBytes v
    → n / 8 < length v
    → is_set i (set_bit n v) ≡ (if i == n then true else is_set i v)
is_set-set_bit n i v h lt =
    let (byte, e) = get_elem?-lt v (n / 8) lt in go byte e (ℕ_discrete (n / 8) (i / 8))
  where
    go :
        (byte : ℕ)
        → get_elem? v (n / 8) ≡ some byte
        → Dec (n / 8 ≡ i / 8)
        → is_set i (set_bit n v) ≡ (if i == n then true else is_set i v)
    go byte e (yes same_byte) =
        ap (λ o. is_set i (or_bit o n v)) e
        ∙ ap (λ o. bit_of o (i % 8))
            (ap (get_elem? (set v (n / 8) (bit_or byte (2 ^ (n % 8))))) (sym same_byte)
              ∙ get_elem?-set_self v (n / 8) (bit_or byte (2 ^ (n % 8))) lt)
        ∙ bit-bit_or byte (n % 8) (i % 8) (AreBytes-get v (n / 8) byte h e) (omega arith)
            (omega arith)
        ∙ ap (λ t. if t then true else bit byte (i % 8)) {x = i % 8 == n % 8} {y = i == n}
            (ground arith)
        ∙ ap (λ b. if i == n then true else b)
            (sym (ap (λ o. bit_of o (i % 8)) (ap (get_elem? v) (sym same_byte) ∙ e)))
    go byte e (no other_byte) =
        ap (λ o. is_set i (or_bit o n v)) e
        ∙ ap (λ o. bit_of o (i % 8)) (get_elem?-set_ne v (bit_or byte (2 ^ (n % 8))) other_byte)
        ∙ (let ne : (i == n) ≡ false = ground arith in rw ne refl)

zero-bit : (j : ℕ) → bit 0 j ≡ false
zero-bit j = ap (λ b. not (b == 0)) (bit_and-bitwise 0 (2 ^ j))

-- A byte that is added for later bits sets none.
snoc-zero : (i : ℕ) (v : Bytes) → is_set i (v ++ 0 ∷ []) ≡ is_set i v
snoc-zero i v = elim (dec_lt (i / 8) (length v)) [
  | yes h ↦ ap (λ o. bit_of o (i % 8)) (get_elem?-append_left v (0 ∷ []) (i / 8) h)
  | no h ↦ elim (ℕ_discrete (i / 8) (length v)) [
    | yes e ↦
        ap (λ o. bit_of o (i % 8)) (ap (get_elem? (v ++ 0 ∷ [])) e ∙ get_elem?-length v 0 [])
        ∙ zero-bit (i % 8)
        ∙ sym (ap (λ o. bit_of o (i % 8)) (get_elem?-ge v (i / 8) (omega arith)))
    | no n ↦
        ap (λ o. bit_of o (i % 8))
          (get_elem?-ge (v ++ 0 ∷ []) (i / 8) (omega (arith, length-append v (0 ∷ [])))
            ∙ sym (get_elem?-ge v (i / 8) (omega arith)))
  ]
]

pub is_set-grown : (n i : ℕ) (v : Bytes) → is_set i (grown n v) ≡ is_set i v
is_set-grown n i v = ground (arith, snoc-zero i v)

pub grown-AreBytes : (n : ℕ) (v : Bytes) → AreBytes v → AreBytes (grown n v)
grown-AreBytes n v h = elim (Bool-cases (leb (length v) (n / 8))) [
  | inl e ↦ rw e (All-append (λ b. b < 256) v (0 ∷ []) h (omega arith))
  | inr e ↦ rw e h
]

pub length-grown : (n : ℕ) (v : Bytes) → length v ≡ (n + 7) / 8 → length (grown n v) ≡ (n + 8) / 8
length-grown n v h = ground (arith, length-append v (0 ∷ []))

pub length-set_bit : (n : ℕ) (v : Bytes) → length (set_bit n v) ≡ length v
length-set_bit n v = go (get_elem? v (n / 8))
  where
    go : (o : Option ℕ) → length (or_bit o n v) ≡ length v
    go none = refl
    go (some byte) = length-set v (n / 8) (bit_or byte (2 ^ (n % 8)))

pub set_bit-AreBytes : (n : ℕ) (v : Bytes) → AreBytes v → n / 8 < length v → AreBytes (set_bit n v)
set_bit-AreBytes n v h lt =
    let (byte, e) = get_elem?-lt v (n / 8) lt in
    subst (λ o. AreBytes (or_bit o n v)) (sym e)
      (AreBytes-set v (n / 8) (bit_or byte (2 ^ (n % 8))) h
        (bit_or-lt byte (n % 8) (AreBytes-get v (n / 8) byte h e) (omega arith)))
