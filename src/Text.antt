-- ===== src/Text.antt =====
-- The decimal numbers that the source prints with `format!` and `to_string`.
pub mod Decimal
use tabulark.Base.{
  ℕ, zero, suc, ◌+◌, ◌/◌, ◌%◌, Bool, true, false, List, [], ◌∷◌, map, String, ltb, ◌==◌,
  if◌then◌else◌,
}
use Prim.Native.Char.{code}
use Prim.Native.String.{◌++◌}

-- The bytes of a buffer, or of a text as UTF-8.
abbrev pub Bytes : Type 0
Bytes = List ℕ

-- The bytes of an ASCII literal.
abbrev pub codes : String → Bytes
codes String.[] = []
codes (String.◌∷◌ c s) = code c ∷ codes s

-- Each round moves the last digit of `n` in front of those that were found.
unfoldable pub digits_onto : ℕ → ℕ → List ℕ → List ℕ
digits_onto zero n found = found
digits_onto (suc fuel) n found = elim (ltb n 10) [
  | true ↦ n ∷ found
  | false ↦ digits_onto fuel (n / 10) ((n % 10) ∷ found)
]

-- The digits of `n`, the first one first. More rounds than `n` are never needed.
unfoldable pub digits : ℕ → List ℕ
unfolding digits_onto
digits n = digits_onto (suc n) n []

-- `format!("{n}")` as bytes.
unfoldable pub decimal : ℕ → Bytes
unfolding digits
decimal n = map (λ d. b'0' + d) (digits n)

digit_text : ℕ → String
digit_text d =
    if d == 0
    then "0"
    else if d == 1
    then "1"
    else if d == 2
    then "2"
    else if d == 3
    then "3"
    else if d == 4
    then "4"
    else if d == 5
    then "5"
    else if d == 6
    then "6"
    else if d == 7
    then "7"
    else if d == 8
    then "8"
    else "9"

join : List ℕ → String
unfolding digit_text
join [] = ""
join (d ∷ ds) = digit_text d ++ join ds

-- `format!("{n}")` in a message.
unfoldable pub show : ℕ → String
unfolding digits join
show n = join (digits n)
