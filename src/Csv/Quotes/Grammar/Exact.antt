-- ===== src/Csv/Quotes/Grammar/Exact.antt =====
-- The texts that are well quoted, and no others, raise no issue (csv.rs).
use mathlib.Core.List.{append_assoc, append-nil}
use tabulark.Base.{
  ℕ, ◌+◌, ◌≡◌, ◌⊎◌, ◌↔◌, inl, inr, refl, sym, ap, ◌∙◌, true, false, List, [], ◌∷◌, ◌++◌, arith, All,
  Option, none, some, ◌==◌, ==_iff, Bool-cases,
}
use tabulark.Text.{Bytes}
use tabulark.Csv.Quotes.{
  QuoteTracker, QuoteState, start_field, unquoted, quoted, after_quote, step_in, ends_field,
  consume, unclosed_quote_offset, new_tracker,
}
use tabulark.Csv.Quotes.WellFormed.{
  Field, bare, enclosed, doubled, print_field, IsBare, IsPrintable, tracker, Ends,
}
use tabulark.Csv.Quotes.Grammar.{
  QuotedText, last, then, print_text, IsWellQuoted, Reads, RaisesNone, text-IsQuiet,
}

-- What follows a field: nothing, or an end and a text.
abbrev Follows : ℕ → Bytes → Type 0
Follows d rest =
    (rest ≡ []) ⊎ ((e : ℕ) × (more : Bytes) × (rest ≡ e ∷ more) × Ends d e × Reads d more)

-- The rest of a quoted field and what follows it.
abbrev Closes : ℕ → Bytes → Type 0
Closes d bytes = (v : Bytes) × (rest : Bytes) × (bytes ≡ doubled v ++ b'"' ∷ rest) × Follows d rest

-- What the bytes are from a state on.
abbrev Continues : ℕ → QuoteState → Bytes → Type 0
Continues d start_field bytes = Reads d bytes
Continues d unquoted bytes =
    (v : Bytes) × (rest : Bytes) × All (IsBare d) v × (bytes ≡ v ++ rest) × Follows d rest
Continues d (quoted o) bytes = Closes d bytes
Continues d after_quote bytes =
    Follows d bytes ⊎ ((more : Bytes) × (bytes ≡ b'"' ∷ more) × Closes d more)

field-Reads :
    (d : ℕ) (f : Field) (rest : Bytes)
    → IsPrintable d f
    → Follows d rest
    → Reads d (print_field f ++ rest)
field-Reads d f rest p (inl e) =
    (last f, p, ap (◌++◌ (print_field f)) e ∙ append-nil (print_field f))
field-Reads d f rest p (inr (e, more, same, ends, (t, w, k))) =
    (then f e t, (p, ends, w), ap (◌++◌ (print_field f)) (same ∙ ap (◌∷◌ e) k))

append-empty : {A : Type 0} (xs ys : List A) → xs ++ ys ≡ [] → (xs ≡ []) × (ys ≡ [])
append-empty [] ys h = (refl, h)
append-empty (x ∷ xs) ys h = cc

RaisesNone-cons :
    (t : QuoteTracker) (b : ℕ) (bytes : Bytes) (base : ℕ)
    → RaisesNone t (b ∷ bytes) base
    → ((step_in t.state t base b).1 ≡ []) × RaisesNone (step_in t.state t base b).0 bytes (base + 1)
unfolding consume
RaisesNone-cons t b bytes base h = let k = append-empty _ _ h.0 in (k.0, (k.1, h.1))

-- A byte is a quote, ends a field, or is neither.
Kind : ℕ → ℕ → Type 0
Kind d b =
    ((b == b'"') ≡ true)
    ⊎ (((b == b'"') ≡ false) × (ends_field d b ≡ true))
    ⊎ (((b == b'"') ≡ false) × (ends_field d b ≡ false))

kind : (d b : ℕ) → Kind d b
unfolding Kind
kind d b = elim (Bool-cases (b == b'"')) [
  | inl q ↦ inl q
  | inr n ↦ elim (Bool-cases (ends_field d b)) [
    | inl e ↦ inr (inl (n, e))
    | inr e ↦ inr (inr (n, e))
  ]
]

-- What a byte more makes of what follows it, where that is known for each state.
module _ (d b : ℕ) (bytes : Bytes) (base : ℕ)
    (rest : (s : QuoteState) (o : Option ℕ)
      → RaisesNone (tracker d s o) bytes (base + 1)
      → Continues d s bytes) where
  ended :
      (o : Option ℕ)
      → (b == b'"') ≡ false
      → ends_field d b ≡ true
      → RaisesNone (tracker d start_field o) bytes (base + 1)
      → Follows d (b ∷ bytes)
  ended o n e h = inr (b, bytes, refl, (e, n), rest start_field o h)

  from_start :
      (o : Option ℕ)
      → Kind d b
      → RaisesNone (tracker d start_field o) (b ∷ bytes) base
      → Reads d (b ∷ bytes)
  unfolding Kind step_in
  from_start o (inl q) h =
      let k = rw q at (RaisesNone-cons (tracker d start_field o) b bytes base h) in
      let (v, after, e, f) = rest (quoted base) (some base) k.1 in
      let (t, w, g) = field-Reads d (enclosed v) after tt f in
      (
        t,
        w,
        ap (λ x. x ∷ bytes) ((==_iff b b'"').0 q)
            ∙ ap (◌∷◌ b'"') (e ∙ sym (append_assoc (doubled v) (b'"' ∷ []) after))
            ∙ g,
      )
  from_start o (inr (inl (n, e))) h =
      let k = rw (n, e) at (RaisesNone-cons (tracker d start_field o) b bytes base h) in
      field-Reads d (bare []) (b ∷ bytes) tt (ended o n e k.1)
  from_start o (inr (inr (n, e))) h =
      let k = rw (n, e) at (RaisesNone-cons (tracker d start_field o) b bytes base h) in
      let (v, after, p, same, f) = rest unquoted o k.1 in
      let (t, w, g) = field-Reads d (bare (b ∷ v)) after (ground arith, p) f in
      (t, w, ap (◌∷◌ b) same ∙ g)

  from_unquoted :
      (o : Option ℕ)
      → Kind d b
      → RaisesNone (tracker d unquoted o) (b ∷ bytes) base
      → Continues d unquoted (b ∷ bytes)
  unfolding Kind step_in
  from_unquoted o (inl q) h =
      let k = rw q at (RaisesNone-cons (tracker d unquoted o) b bytes base h) in let l = k.0 in cc
  from_unquoted o (inr (inl (n, e))) h =
      let k = rw (n, e) at (RaisesNone-cons (tracker d unquoted o) b bytes base h) in
      ([], b ∷ bytes, tt, refl, ended o n e k.1)
  from_unquoted o (inr (inr (n, e))) h =
      let k = rw (n, e) at (RaisesNone-cons (tracker d unquoted o) b bytes base h) in
      let (v, after, p, same, f) = rest unquoted o k.1 in
      (b ∷ v, after, (ground arith, p), ap (◌∷◌ b) same, f)

  from_quoted :
      (p : ℕ) (o : Option ℕ)
      → RaisesNone (tracker d (quoted p) o) (b ∷ bytes) base
      → Closes d (b ∷ bytes)
  unfolding step_in
  from_quoted p o h = elim (Bool-cases (b == b'"')) [
    | inl q ↦
        let k = rw q at (RaisesNone-cons (tracker d (quoted p) o) b bytes base h) in
        let same = ap (λ x. x ∷ bytes) ((==_iff b b'"').0 q) in
        elim (rest after_quote o k.1) [
          | inl f ↦ ([], bytes, same, f)
          | inr (more, e, (v, after, g, f)) ↦
              (b'"' ∷ v, after, same ∙ ap (◌∷◌ b'"') (e ∙ ap (◌∷◌ b'"') g), f)
        ]
    | inr n ↦
        let k = rw n at (RaisesNone-cons (tracker d (quoted p) o) b bytes base h) in
        let (v, after, g, f) = rest (quoted p) o k.1 in (b ∷ v, after, rw n (ap (◌∷◌ b) g), f)
  ]

  from_after_quote :
      (o : Option ℕ)
      → Kind d b
      → RaisesNone (tracker d after_quote o) (b ∷ bytes) base
      → Continues d after_quote (b ∷ bytes)
  unfolding Kind step_in
  from_after_quote o (inl q) h =
      let k = rw q at (RaisesNone-cons (tracker d after_quote o) b bytes base h) in
      inr (bytes, ap (λ x. x ∷ bytes) ((==_iff b b'"').0 q), rest _ _ k.1)
  from_after_quote o (inr (inl (n, e))) h =
      let k = rw (n, e) at (RaisesNone-cons (tracker d after_quote o) b bytes base h) in
      inl (ended none n e k.1)
  from_after_quote o (inr (inr (n, e))) h =
      let k = rw (n, e) at (RaisesNone-cons (tracker d after_quote o) b bytes base h) in
      let l = k.0 in cc

continues :
    (d : ℕ) (bytes : Bytes) (base : ℕ) (s : QuoteState) (o : Option ℕ)
    → RaisesNone (tracker d s o) bytes base
    → Continues d s bytes
unfolding consume unclosed_quote_offset
continues d [] base start_field o h = (last (bare []), tt, refl)
continues d [] base unquoted o h = ([], [], tt, refl, inl refl)
continues d [] base (quoted p) o h = let k = h.1 in cc
continues d [] base after_quote o h = inl (inl refl)
continues d (b ∷ bytes) base start_field o h =
    from_start d b bytes base (continues d bytes (base + 1)) o (kind d b) h
continues d (b ∷ bytes) base unquoted o h =
    from_unquoted d b bytes base (continues d bytes (base + 1)) o (kind d b) h
continues d (b ∷ bytes) base (quoted p) o h =
    from_quoted d b bytes base (continues d bytes (base + 1)) p o h
continues d (b ∷ bytes) base after_quote o h =
    from_after_quote d b bytes base (continues d bytes (base + 1)) o (kind d b) h

-- The bytes raise no issue and leave no quote open exactly if they are those of a well-quoted text:
-- fields with a byte that ends a field (the delimiter, CR or LF, if it is not a quote) behind each
-- but the last, each written as it is without a quote or such a byte, or between quotes with every
-- quote in it doubled.
pub consume-IsWellQuoted :
    (d : ℕ) (bytes : Bytes)
    → RaisesNone (new_tracker d) bytes 0
      ↔ ((t : QuotedText) × IsWellQuoted d t × (bytes ≡ print_text t))
consume-IsWellQuoted d bytes = (
  continues d bytes 0 start_field none,
  λ (t, w, e).
      let (u, k, c) = text-IsQuiet d t none 0 w in
      let same = ap (λ l. consume (new_tracker d) l 0) e ∙ k in
      (ap (λ r. r.1) same, ap (λ r. unclosed_quote_offset r.0) same ∙ c),
)
