-- ===== src/Csv/Builder/Values/RoundTrip.antt =====
-- A column gives back the values that were pushed (csv.rs, model.rs).
use native.Mathlib.Decide.{dec_lt}
use mathlib.Core.List.{append_assoc, append-nil}
use tabulark.Base.{
  ℕ, zero, suc, ◌+◌, ◌-◌, ◌<◌, ◌≡◌, refl, sym, ap, ◌∙◌, true, List, [], ◌∷◌, ◌++◌, arith,
  if◌then◌else◌, Option, none, some, length, length-append, get_elem?, get_elem?-ge, get_elem?-lt,
  All, take, drop, le→leb, subst, drop-append_length, take-append_length, lt→not-leb, ◌*◌,
}
use tabulark.Text.{Bytes}
use tabulark.Error.{ok}
use tabulark.State.{done, M, pure, ◌>>◌, >>=-done, monad}
use tabulark.Utf8.{is_valid}
use tabulark.Utf8.Lossy.{is_valid-append}
use tabulark.Model.Strings.{
  StringColumnBatch, new_strings, is_monotonic, last_or, value, slice, is_set, decode,
  starts_with_zero, div_ceil, between_offsets,
}
use tabulark.Csv.Builder.{StringColumnBuilder, new_builder, push, finish, value_length, bitmap_cost}
use tabulark.Csv.Builder.Values.{
  flat, sums, is_present, Holds, push_done, pushed-Holds, new_builder-Holds, pushed, length-write,
  bitmap_cost_lem,
}

-- Every value is text.
abbrev pub IsText : Option Bytes → Type 0
IsText none = Unit {0}
IsText (some v) = is_valid v ≡ true

flat-valid : (vs : List (Option Bytes)) → All IsText vs → is_valid (flat vs) ≡ true
flat-valid [] h = unfold is_valid in refl
flat-valid (none ∷ vs) h = flat-valid vs h.1
flat-valid (some v ∷ vs) h = is_valid-append v (flat vs) h.0 (flat-valid vs h.1)

sums-monotonic : (a : ℕ) (vs : List (Option Bytes)) → is_monotonic (sums a vs) ≡ true
unfolding is_monotonic
sums-monotonic a [] = refl
sums-monotonic a (v ∷ []) = ground arith
sums-monotonic a (v ∷ w ∷ vs) = ground (arith, sums-monotonic (a + value_length v) (w ∷ vs))

last_or-sums : (d a : ℕ) (vs : List (Option Bytes)) → last_or d (sums a vs) ≡ a + length (flat vs)
last_or-sums d a [] = omega arith
last_or-sums d a (none ∷ vs) = omega (arith, last_or-sums a (a + 0) vs)
last_or-sums d a (some v ∷ vs) =
    omega (arith, last_or-sums a (a + length v) vs, length-append v (flat vs))

length-sums : (a : ℕ) (vs : List (Option Bytes)) → length (sums a vs) ≡ length vs + 1
length-sums a [] = omega arith
length-sums a (v ∷ vs) = omega (arith, length-sums (a + value_length v) vs)

-- What the finished column consists of.
abbrev column : StringColumnBuilder → StringColumnBatch
column b = record {
  column_id = b.column_id;
  data_bytes = b.data_bytes;
  offsets = b.offsets;
  validity = b.validity;
}

finish_ok :
    (vs : List (Option Bytes)) (b : StringColumnBuilder)
    → All IsText vs
    → Holds vs b
    → finish b ≡ ok (column b)
unfolding finish new_strings
finish_ok vs b t h = ground (arith, first, monotonic, last, count, text)
  where
    starts : (ws : List (Option Bytes)) → starts_with_zero (sums 0 ws) ≡ true
    starts [] = refl
    starts (w ∷ ws) = refl

    first : starts_with_zero b.offsets ≡ true
    first = ap starts_with_zero h.offsets_eq ∙ starts vs

    monotonic : is_monotonic b.offsets ≡ true
    monotonic = ap is_monotonic h.offsets_eq ∙ sums-monotonic 0 vs

    last : last_or 0 b.offsets ≡ length b.data_bytes
    last = omega (arith, ap (last_or 0) h.offsets_eq, last_or-sums 0 0 vs, ap length h.data_eq)

    count : length b.validity ≡ div_ceil (length b.offsets - 1) 8
    count = omega (arith, h.validity_length, ap length h.offsets_eq, length-sums 0 vs)

    text : is_valid b.data_bytes ≡ true
    text = ap is_valid h.data_eq ∙ flat-valid vs t

-- Where a value stands in the encoding.
reads :
    (a : ℕ) (vs : List (Option Bytes)) (i : ℕ) (v : Bytes)
    → get_elem? vs i ≡ some (some v)
    → (start : ℕ) × (rest : Bytes) × (get_elem? (sums a vs) i ≡ some (a + start))
      × (get_elem? (sums a vs) (suc i) ≡ some (a + start + length v))
      × (drop start (flat vs) ≡ v ++ rest)
reads a [] i v e = cc
reads a (w ∷ []) zero v e =
    let k : w ≡ some v = cc in
    (0, [], ap some (omega arith), rw k (ap some (omega arith)), rw k refl)
reads a (w ∷ x ∷ vs) zero v e =
    let k : w ≡ some v = cc in
    (0, flat (x ∷ vs), ap some (omega arith), rw k (ap some (omega arith)), rw k refl)
reads a (none ∷ vs) (suc i) v e =
    let (start, rest, p, q, r) = reads (a + 0) vs i v e in
    (start, rest, p ∙ ap some (omega arith), q ∙ ap some (omega arith), r)
reads a (some w ∷ vs) (suc i) v e =
    let (start, rest, p, q, r) = reads (a + length w) vs i v e in
    (
      length w + start,
      rest,
      p ∙ ap some (omega arith),
      q ∙ ap some (omega arith),
      drop-append_length w (flat vs) start ∙ r,
    )

text_at :
    (vs : List (Option Bytes)) (i : ℕ) (v : Bytes)
    → All IsText vs
    → get_elem? vs i ≡ some (some v)
    → is_valid v ≡ true
text_at [] i v h e = cc
text_at (w ∷ vs) zero v h e = let k : w ≡ some v = cc in subst IsText k h.0
text_at (w ∷ vs) (suc i) v h e = text_at vs i v h.1 e

value_column :
    (vs : List (Option Bytes)) (b : StringColumnBuilder) (i : ℕ)
    → All IsText vs
    → Holds vs b
    → value (column b) i ≡ get_elem? vs i
unfolding value
value_column vs b i t h = elim (dec_lt i (length vs)) [
  | no n ↦
      rw (le→leb (length b.offsets - 1) i (omega (arith, size)))
        (sym (get_elem?-ge vs i (omega arith)))
  | yes lt ↦ let (x, e) = get_elem?-lt vs i lt in go x e lt
]
  where
    size : length b.offsets ≡ length vs + 1
    size = ap length h.offsets_eq ∙ length-sums 0 vs

    present :
        (x : Option Bytes) → get_elem? vs i ≡ some x → is_set i b.validity ≡ is_present (some x)
    present x e = h.validity_bits i ∙ ap is_present e

    go :
        (x : Option Bytes)
        → get_elem? vs i ≡ some x
        → i < length vs
        → value (column b) i ≡ get_elem? vs i
    go none e lt =
        rw (lt→not-leb (length b.offsets - 1) i (omega (arith, size)), present none e) (sym e)
    go (some v) e lt =
        let (start, rest, p, q, r) = reads 0 vs i v e in
        rw (lt→not-leb (length b.offsets - 1) i (omega (arith, size)), present (some v) e)
          (ap (λ o. between_offsets o (get_elem? b.offsets (i + 1)) b.data_bytes)
              (ap (λ os. get_elem? os i) h.offsets_eq ∙ p)
            ∙ ap (λ o. between_offsets (some (0 + start)) o b.data_bytes)
                (ap (λ os. get_elem? os (i + 1)) h.offsets_eq
                  ∙ ap (get_elem? (sums 0 vs)) {x = i + 1} {y = suc i} (omega arith)
                  ∙ q)
            ∙ ap (λ l. some (decode l))
                (ap (slice (0 + start) (0 + start + length v)) h.data_eq
                  ∙ ap (λ k. slice k (k + length v) (flat vs)) {x = 0 + start} {y = start}
                      (omega arith)
                  ∙ ap (take (start + length v - start)) r
                  ∙ ap (λ k. take k (v ++ rest)) {x = start + length v - start} {y = length v}
                      (omega arith)
                  ∙ take-append_length v rest)
            ∙ ap (λ c. some (if c then some v else none)) (text_at vs i v t e)
            ∙ sym e)

-- One value after the other.
unfoldable pub push_all : ℕ → List (Option Bytes) → M (StringColumnBuilder × ℕ) (Unit {0})
push_all limit [] = pure tt
push_all limit (v ∷ vs) = push v limit >> push_all limit vs

abbrev AllPushed : List (Option Bytes) → ℕ → StringColumnBuilder × ℕ → Type 0
AllPushed vs m s =
    Holds vs s.0 × (s.1 ≡ m + length s.0.data_bytes + 4 * length vs + length s.0.validity)

push-Holds :
    (limit m : ℕ) (ws : List (Option Bytes)) (v : Option Bytes) (s t : StringColumnBuilder × ℕ)
    → AllPushed ws m s
    → push v limit s ≡ done tt t
    → AllPushed (ws ++ v ∷ []) m t
push-Holds limit m ws v s t h e =
    let (b_eq, n_eq, _) = push_done v limit s.1 t.1 s.0 t.0 e in
    let holds = pushed-Holds ws v s.0 h.0 in
    (subst (Holds (ws ++ v ∷ [])) (sym b_eq) holds, cost b_eq n_eq holds)
  where
    cost :
        t.0 ≡ pushed v s.0
        → t.1 ≡ s.1 + value_length v + 4 + bitmap_cost s.0.values
        → Holds (ws ++ v ∷ []) (pushed v s.0)
        → t.1 ≡ m + length t.0.data_bytes + 4 * length (ws ++ v ∷ []) + length t.0.validity
    cost b_eq n_eq holds = omega (
      arith,
      h.1,
      n_eq,
      ap (λ b. length b.data_bytes) b_eq,
      ap (λ b. length b.validity) b_eq,
      length-write v s.0,
      holds.validity_length,
      h.0.validity_length,
      h.0.values_eq,
      bitmap_cost_lem (length ws),
      ap bitmap_cost h.0.values_eq,
      length-append ws (v ∷ []),
    )

push_all-Holds :
    (limit m : ℕ) (ws vs : List (Option Bytes)) (s t : StringColumnBuilder × ℕ)
    → AllPushed ws m s
    → push_all limit vs s ≡ done tt t
    → AllPushed (ws ++ vs) m t
unfolding push_all monad
push_all-Holds limit m ws [] s t h e =
    let k : s ≡ t = cc in rw append-nil (subst (AllPushed ws m) k h)
push_all-Holds limit m ws (v ∷ vs) s t h e =
    let (_, u, first, rest) = >>=-done (push v limit) (λ _. push_all limit vs) s t tt e in
    let h' = push-Holds limit m ws v s u h first in
    subst (λ l. AllPushed l m t) (append_assoc ws (v ∷ []) vs)
      (push_all-Holds limit m (ws ++ v ∷ []) vs u t h' rest)

-- A column that was filled value by value, each of them text, is accepted as a batch column that
-- reads back exactly those values, and the count of bytes grew by what its buffers hold.
pub value-push_all :
    (id : Bytes) (vs : List (Option Bytes)) (limit m n : ℕ) (b : StringColumnBuilder)
    → All IsText vs
    → push_all limit vs (new_builder id, m) ≡ done tt (b, n)
    → (c : StringColumnBatch) × (finish b ≡ ok c)
      × ((i : ℕ) → value c i ≡ get_elem? vs i)
      × (n ≡ m + length c.data_bytes + 4 * length vs + length c.validity)
value-push_all id vs limit m n b t e =
    let (h, cost) =
      push_all-Holds limit m [] vs (new_builder id, m) (b, n) (new_builder-Holds id, omega arith)
        e in
    (column b, finish_ok vs b t h, λ i. value_column vs b i t h, cost)
