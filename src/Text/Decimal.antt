-- ===== src/Text/Decimal.antt =====
-- Decimal numbers are read back.
use tabulark.Base.{
  ℕ, zero, suc, ◌+◌, ◌-◌, ◌*◌, ◌/◌, ◌%◌, ◌<◌, ◌≡◌, refl, sym, ap, ◌∙◌, List, [], ◌∷◌, map, arith,
  inl, inr, Bool-cases, ltb,
}
use tabulark.Text.{digits_onto, digits, decimal, Bytes}

-- The number that digits stand for behind a number already read.
abbrev value_from : ℕ → List ℕ → ℕ
value_from v [] = v
value_from v (d ∷ ds) = value_from (v * 10 + d) ds

value-digits_onto :
    (fuel n : ℕ) (found : List ℕ)
    → n < fuel
    → value_from 0 (digits_onto fuel n found) ≡ value_from n found
unfolding digits_onto
value-digits_onto zero n found h = elim h [ ]
value-digits_onto (suc fuel) n found h = elim (Bool-cases (ltb n 10)) [
  | inl e ↦ rw (e, digits_onto) (ap (λ v. value_from v found) (omega arith))
  | inr e ↦
      let below : n / 10 < fuel = ground arith in
      rw (e, digits_onto)
        (value-digits_onto fuel (n / 10) (n % 10 ∷ found) below
          ∙ ap (λ v. value_from v found) (omega arith))
]

-- The number that printed bytes stand for.
abbrev pub parse_from : ℕ → Bytes → ℕ
parse_from v [] = v
parse_from v (c ∷ cs) = parse_from (v * 10 + (c - b'0')) cs

parse-map : (v : ℕ) (ds : List ℕ) → parse_from v (map (λ d. b'0' + d) ds) ≡ value_from v ds
parse-map v [] = refl
parse-map v (d ∷ ds) =
    ap (λ k. parse_from k (map (λ e. b'0' + e) ds)) {x = v * 10 + (b'0' + d - b'0')}
      {y = v * 10 + d} (omega arith)
    ∙ parse-map (v * 10 + d) ds

pub parse-decimal : (n : ℕ) → parse_from 0 (decimal n) ≡ n
unfolding decimal
parse-decimal n =
    parse-map 0 (digits n) ∙ unfold digits in value-digits_onto (suc n) n [] (omega arith)

pub decimal-injective : (m n : ℕ) → decimal m ≡ decimal n → m ≡ n
decimal-injective m n e = sym (parse-decimal m) ∙ ap (parse_from 0) e ∙ parse-decimal n
