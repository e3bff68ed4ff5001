-- ===== src/Csv/Builder/Values.antt =====
-- What a column holds after its values were pushed (csv.rs).
pub mod RoundTrip
use native.Mathlib.Decide.{dec_le}
use tabulark.Error.{code_of, resource_limit, new}
use mathlib.Core.List.{append_assoc, append-nil}
use tabulark.Base.{
  ℕ, zero, suc, ◌+◌, ◌-◌, ◌/◌, ◌≤◌, ◌≡◌, refl, sym, ap, ◌∙◌, Bool, true, false, List, [], ◌∷◌, ◌++◌,
  arith, ◌==◌, if◌then◌else◌, Option, none, some, length, length-append, get_elem?, u32_max,
  usize_max, Bool-cases, inl, inr, leb, ◌<◌, get_elem?-ge, ==_iff, ◌⊎◌,
}
use tabulark.Text.{Bytes}
use tabulark.State.{Outcome, done, fail, state_of, result_of}
use tabulark.Model.Strings.{is_set}
use tabulark.Csv.Builder.{
  StringColumnBuilder, new_builder, push, write, value_length, bitmap_cost, grown, set_bit,
}
use tabulark.Csv.Builder.Bitmap.{
  AreBytes, is_set-set_bit, is_set-grown, grown-AreBytes, length-grown, length-set_bit,
  set_bit-AreBytes,
}

-- The bytes of the values one after the other.
abbrev pub flat : List (Option Bytes) → Bytes
flat [] = []
flat (none ∷ vs) = flat vs
flat (some v ∷ vs) = v ++ flat vs

-- The offsets from `a` on.
abbrev pub sums : ℕ → List (Option Bytes) → List ℕ
sums a [] = a ∷ []
sums a (v ∷ vs) = a ∷ sums (a + value_length v) vs

abbrev pub is_present : Option (Option Bytes) → Bool
is_present (some (some v)) = true
is_present (some none) = false
is_present none = false

abbrev bytes_of : Option Bytes → Bytes
bytes_of none = []
bytes_of (some v) = v

flat-snoc :
    (vs : List (Option Bytes)) (v : Option Bytes) → flat (vs ++ v ∷ []) ≡ flat vs ++ bytes_of v
flat-snoc [] none = refl
flat-snoc [] (some v) = append-nil v
flat-snoc (none ∷ vs) v = flat-snoc vs v
flat-snoc (some w ∷ vs) v =
    ap (◌++◌ w) (flat-snoc vs v) ∙ sym (append_assoc w (flat vs) (bytes_of v))

length-bytes_of : (v : Option Bytes) → length (bytes_of v) ≡ value_length v
length-bytes_of none = refl
length-bytes_of (some v) = refl

sums-snoc :
    (a : ℕ) (vs : List (Option Bytes)) (v : Option Bytes) (end : ℕ)
    → end ≡ a + length (flat vs) + value_length v
    → sums a (vs ++ v ∷ []) ≡ sums a vs ++ end ∷ []
sums-snoc a [] v end e = ap (λ n. a ∷ n ∷ []) (omega arith)
sums-snoc a (none ∷ vs) v end e = ap (◌∷◌ a) (sums-snoc (a + 0) vs v end (omega arith))
sums-snoc a (some w ∷ vs) v end e =
    ap (◌∷◌ a) (sums-snoc (a + length w) vs v end (omega (arith, length-append w (flat vs))))

present-snoc :
    (vs : List (Option Bytes)) (v : Option Bytes) (i : ℕ)
    → is_present (get_elem? (vs ++ v ∷ []) i)
      ≡ (if i == length vs then is_present (some v) else is_present (get_elem? vs i))
present-snoc [] v zero = refl
present-snoc [] v (suc i) = let e : (suc i == 0) ≡ false = ground arith in rw e
present-snoc (w ∷ vs) v zero = let e : (0 == suc (length vs)) ≡ false = ground arith in rw e
present-snoc (w ∷ vs) v (suc i) =
    let e : (suc i == suc (length vs)) ≡ (i == length vs) = ground arith in
    rw e (present-snoc vs v i)

-- The builder encodes the values `vs`.
pub record Holds (vs : List (Option Bytes)) (b : StringColumnBuilder) : Type 0 where
  pub data_eq : b.data_bytes ≡ flat vs
  pub offsets_eq : b.offsets ≡ sums 0 vs
  pub values_eq : b.values ≡ length vs
  pub validity_bytes : AreBytes b.validity
  pub validity_length : length b.validity ≡ (length vs + 7) / 8
  pub validity_bits : (i : ℕ) → is_set i b.validity ≡ is_present (get_elem? vs i)

pub new_builder-Holds : (id : Bytes) → Holds [] (new_builder id)
new_builder-Holds id = record {
  data_eq = refl;
  offsets_eq = refl;
  values_eq = refl;
  validity_bytes = tt;
  validity_length = omega arith;
  validity_bits = λ i. refl;
}

-- The builder after a value was accepted.
abbrev pub pushed : Option Bytes → StringColumnBuilder → StringColumnBuilder
pushed v b = record (write v b) {
  offsets = b.offsets ++ length (write v b).data_bytes ∷ [];
  values = b.values + 1;
}

-- An accepted value costs its bytes, one offset, and a bitmap byte if it opens one.
pub push_done :
    (v : Option Bytes) (limit n n' : ℕ) (b b' : StringColumnBuilder)
    → push v limit (b, n) ≡ done tt (b', n')
    → (b' ≡ pushed v b) × (n' ≡ n + value_length v + 4 + bitmap_cost b.values) × (n' ≤ limit)
unfolding push
push_done none limit n n' b b' e = ground arith
push_done (some v) limit n n' b b' e = ground arith

write_data :
    (v : Option Bytes) (b : StringColumnBuilder)
    → (write v b).data_bytes ≡ b.data_bytes ++ bytes_of v
unfolding write
write_data none b = sym (append-nil b.data_bytes)
write_data (some v) b = refl

pub length-write :
    (v : Option Bytes) (b : StringColumnBuilder)
    → length (write v b).data_bytes ≡ length b.data_bytes + value_length v
length-write v b =
    omega (
      arith,
      ap length (write_data v b),
      length-append b.data_bytes (bytes_of v),
      length-bytes_of v,
    )

pub bitmap_cost_lem : (n : ℕ) → (n + 7) / 8 + bitmap_cost n ≡ (n + 8) / 8
bitmap_cost_lem n = ground arith

pub pushed-Holds :
    (vs : List (Option Bytes)) (v : Option Bytes) (b : StringColumnBuilder)
    → Holds vs b
    → Holds (vs ++ v ∷ []) (pushed v b)
pushed-Holds vs v b h = record {
  data_eq = data_lem;
  offsets_eq =
      ap (λ os. os ++ length (write v b).data_bytes ∷ []) h.offsets_eq
      ∙ sym (
          sums-snoc 0 vs v (length (write v b).data_bytes) (
            omega (
              arith,
              ap length (write_data v b),
              ap length h.data_eq,
              length-append b.data_bytes (bytes_of v),
              length-bytes_of v,
            )));
  values_eq = omega (arith, h.values_eq, length-append vs (v ∷ []));
  validity_bytes = validity_bytes_lem v;
  validity_length = validity_length_lem v;
  validity_bits = λ i. validity_bits_lem v i ∙ sym (present-snoc vs v i);
}
  where
    data_lem : (pushed v b).data_bytes ≡ flat (vs ++ v ∷ [])
    data_lem = write_data v b ∙ ap (λ d. d ++ bytes_of v) h.data_eq ∙ sym (flat-snoc vs v)

    size : length b.validity ≡ (b.values + 7) / 8
    size = omega (arith, h.validity_length, h.values_eq)

    room : b.values / 8 < length (grown b.values b.validity)
    room = omega (arith, length-grown b.values b.validity size)

    validity_bytes_lem : (w : Option Bytes) → AreBytes (pushed w b).validity
    validity_bytes_lem none = unfold write in grown-AreBytes b.values b.validity h.validity_bytes
    validity_bytes_lem (some w) =
        unfold write in
        set_bit-AreBytes b.values (grown b.values b.validity)
          (grown-AreBytes b.values b.validity h.validity_bytes) room

    length_lem : length (grown b.values b.validity) ≡ (length (vs ++ v ∷ []) + 7) / 8
    length_lem =
        omega (arith, length-grown b.values b.validity size, h.values_eq, length-append vs (v ∷ []))

    validity_length_lem :
        (w : Option Bytes) → length (pushed w b).validity ≡ (length (vs ++ v ∷ []) + 7) / 8
    validity_length_lem none = unfold write in length_lem
    validity_length_lem (some w) =
        unfold write in length-set_bit b.values (grown b.values b.validity) ∙ length_lem

    old_bits : (i : ℕ) → is_set i (grown b.values b.validity) ≡ is_present (get_elem? vs i)
    old_bits i = is_set-grown b.values i b.validity ∙ h.validity_bits i

    absent :
        (i : ℕ)
        → is_present (get_elem? vs i)
          ≡ (if i == length vs then false else is_present (get_elem? vs i))
    absent i = elim (Bool-cases (i == length vs)) [
      | inl e ↦ rw e (
          ap is_present (
            ap (get_elem? vs) ((==_iff i (length vs)).0 e)
            ∙ get_elem?-ge vs (length vs) (omega arith)))
      | inr e ↦ rw e refl
    ]

    validity_bits_lem :
        (w : Option Bytes) (i : ℕ)
        → is_set i (pushed w b).validity
          ≡ (if i == length vs then is_present (some w) else is_present (get_elem? vs i))
    validity_bits_lem none i = unfold write in old_bits i ∙ absent i
    validity_bits_lem (some w) i =
        unfold write in
        is_set-set_bit b.values i (grown b.values b.validity)
          (grown-AreBytes b.values b.validity h.validity_bytes) room
        ∙ ap (λ n. if i == n then true else is_set i (grown b.values b.validity)) h.values_eq
        ∙ ap (λ c. if i == length vs then true else c) (old_bits i)

module _ (limit n : ℕ) (b : StringColumnBuilder) (in_word : limit ≤ usize_max) where
  accept :
      (v : Option Bytes)
      → length b.data_bytes + value_length v ≤ u32_max
      → n + value_length v + 4 + bitmap_cost b.values ≤ limit
      → push v limit (b, n) ≡ done tt (pushed v b, n + value_length v + 4 + bitmap_cost b.values)
  unfolding push
  accept none d h = ground arith
  accept (some v) d h = ground (arith, length-append b.data_bytes v)

  refuse :
      (v : Option Bytes)
      → n + value_length v + 5 ≤ usize_max
      → limit < n + value_length v + 4 + bitmap_cost b.values
      → (state_of (push v limit (b, n)) ≡ (b, n))
        × (code_of (result_of (push v limit (b, n))) ≡ some resource_limit)
  unfolding push new
  refuse none m h = ground arith
  refuse (some v) m h = ground arith

-- Where no machine integer overflows, a value is accepted if the batch stays within its limit with
-- the bytes of the value, its offset and the byte of the bitmap that it may begin, and is refused by
-- the resource limit otherwise, which changes nothing.
pub push_exact :
    (v : Option Bytes) (limit n : ℕ) (b : StringColumnBuilder)
    → limit ≤ usize_max
    → n + value_length v + 5 ≤ usize_max
    → length b.data_bytes + value_length v ≤ u32_max
    → ((n + value_length v + 4 + bitmap_cost b.values ≤ limit)
        × (push v limit (b, n)
            ≡ done tt (pushed v b, n + value_length v + 4 + bitmap_cost b.values)))
      ⊎ ((limit < n + value_length v + 4 + bitmap_cost b.values)
          × (state_of (push v limit (b, n)) ≡ (b, n))
          × (code_of (result_of (push v limit (b, n))) ≡ some resource_limit))
push_exact v limit n b l m d = elim (dec_le (n + value_length v + 4 + bitmap_cost b.values) limit) [
  | yes h ↦ inl (h, accept limit n b l v d h)
  | no h ↦ let (p, q) = refuse limit n b l v m (omega arith) in inr (omega arith, p, q)
]
