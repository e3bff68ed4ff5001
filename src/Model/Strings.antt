-- ===== src/Model/Strings.antt =====
-- src/model.rs: one column of a batch, as data, offsets and a validity bitmap.
use Prim.Native.Nat.{bit_and}
use tabulark.Base.{
  ℕ, ◌+◌, ◌-◌, ◌/◌, ◌%◌, ◌^◌, Bool, true, false, not, ◌&&◌, List, [], ◌∷◌, Option, none, some, leb,
  ◌==◌, if◌then◌else◌, length, get_elem?, take, drop,
}
use tabulark.Text.{Bytes}
use tabulark.Utf8.{is_valid}
use tabulark.Error.{Result, ok, new, invalid_argument, fail_if, ◌>>◌}

pub record StringColumnBatch : Type 0 where
  pub column_id : Bytes
  pub data_bytes : Bytes
  pub offsets : List ℕ
  pub validity : Bytes

-- `!offsets.is_empty() && offsets[0] == 0`
abbrev pub starts_with_zero : List ℕ → Bool
starts_with_zero [] = false
starts_with_zero (o ∷ os) = o == 0

-- `offsets.windows(2).all(|pair| pair[0] <= pair[1])`
unfoldable pub is_monotonic : List ℕ → Bool
is_monotonic [] = true
is_monotonic (a ∷ []) = true
is_monotonic (a ∷ b ∷ os) = leb a b && is_monotonic (b ∷ os)

-- `*offsets.last().unwrap_or(&0)`
abbrev pub last_or : ℕ → List ℕ → ℕ
last_or d [] = d
last_or d (o ∷ os) = last_or o os

abbrev pub div_ceil : ℕ → ℕ → ℕ
div_ceil n k = (n + k - 1) / k

-- `StringColumnBatch::new`
unfoldable pub new_strings : Bytes → Bytes → List ℕ → Bytes → Result StringColumnBatch
unfolding is_monotonic
new_strings column_id bytes offsets validity = do
  fail_if (not (starts_with_zero offsets))
      (new invalid_argument "string offsets must start with zero")
  fail_if (not (is_monotonic offsets)) (new invalid_argument "string offsets must be monotonic")
  fail_if (not (last_or 0 offsets == length bytes))
      (new invalid_argument "the final string offset must equal the data length")
  fail_if (not (length validity == div_ceil (length offsets - 1) 8))
      (new invalid_argument "validity bitmap length does not match the value count")
  fail_if (not (is_valid bytes)) (new invalid_argument "string column data must be valid UTF-8")
  ok (record { column_id = column_id; data_bytes = bytes; offsets = offsets; validity = validity })

-- `len`: the number of values.
unfoldable pub len : StringColumnBatch → ℕ
len c = length c.offsets - 1

-- `bytes[start..end]`
abbrev pub slice : ℕ → ℕ → Bytes → Bytes
slice start end bytes = take (end - start) (drop start bytes)

-- Bit `j` of a byte: `byte & (1 << j) != 0`.
abbrev pub bit : ℕ → ℕ → Bool
bit byte j = not (bit_and byte (2 ^ j) == 0)

abbrev pub bit_of : Option ℕ → ℕ → Bool
bit_of none j = false
bit_of (some byte) j = bit byte j

-- `self.validity[index / 8] & (1 << (index % 8)) != 0`
abbrev pub is_set : ℕ → Bytes → Bool
is_set index validity = bit_of (get_elem? validity (index / 8)) (index % 8)

-- `str::from_utf8(bytes).ok()`
abbrev pub decode : Bytes → Option Bytes
decode bytes = if is_valid bytes then some bytes else none

abbrev pub between_offsets : Option ℕ → Option ℕ → Bytes → Option (Option Bytes)
between_offsets (some start) (some end) bytes = some (decode (slice start end bytes))
between_offsets _ _ bytes = none

-- `none` out of range, `some none` for a missing value.
unfoldable pub value : StringColumnBatch → ℕ → Option (Option Bytes)
unfolding len
value c index =
    if leb (len c) index
    then none
    else if not (is_set index c.validity)
    then some none
    else between_offsets (get_elem? c.offsets index) (get_elem? c.offsets (index + 1)) c.data_bytes
