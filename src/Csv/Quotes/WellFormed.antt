-- ===== src/Csv/Quotes/WellFormed.antt =====
-- Well-quoted text raises no issue (csv.rs).
use mathlib.Core.List.{append_assoc}
use tabulark.Base.{
  Bool-cases, inl, inr, ℕ, ◌+◌, ◌≡◌, ◌≢◌, refl, ap, ◌∙◌, true, false, ◌||◌, List, [], ◌∷◌, ◌++◌,
  arith, length, All, Option, none, some, ◌==◌, if◌then◌else◌,
}
use tabulark.Text.{Bytes}
use tabulark.Csv.Quotes.{
  QuoteTracker, QuoteState, start_field, unquoted, quoted, after_quote, step_in, ends_field,
  consume, unclosed_quote_offset, new_tracker,
}
use tabulark.Csv.Quotes.Chunks.{consume-append, followed_by}

-- A field is written as it is, or between quotes with each quote doubled.
pub data Field : Type 0 where
  bare enclosed : Bytes → Field

abbrev pub doubled : Bytes → Bytes
doubled [] = []
doubled (b ∷ bs) = if b == b'"' then b'"' ∷ b'"' ∷ doubled bs else b ∷ doubled bs

abbrev pub print_field : Field → Bytes
print_field (bare v) = v
print_field (enclosed v) = b'"' ∷ doubled v ++ b'"' ∷ []

-- Fields with the delimiter between them, and the line end behind the last.
abbrev pub print_record : ℕ → Bytes → List Field → Bytes
print_record delimiter eol [] = eol
print_record delimiter eol (f ∷ []) = print_field f ++ eol
print_record delimiter eol (f ∷ g ∷ fs) =
    print_field f ++ delimiter ∷ print_record delimiter eol (g ∷ fs)

abbrev pub print_records : ℕ → Bytes → List (List Field) → Bytes
print_records delimiter eol [] = []
print_records delimiter eol (r ∷ rs) =
    print_record delimiter eol r ++ print_records delimiter eol rs

-- A bare field holds no quote, delimiter or line end.
abbrev pub IsBare : ℕ → ℕ → Type 0
IsBare delimiter b = (b == b'"') || ends_field delimiter b ≡ false

abbrev pub IsPrintable : ℕ → Field → Type 0
IsPrintable delimiter (bare v) = All (IsBare delimiter) v
IsPrintable delimiter (enclosed v) = Unit {0}

abbrev pub tracker : ℕ → QuoteState → Option ℕ → QuoteTracker
tracker delimiter s o = record { delimiter = delimiter; state = s; quoted_opening = o }

-- The bytes lead from one tracker to another, and raise no issue.
abbrev pub Runs : QuoteTracker → Bytes → ℕ → QuoteTracker → Type 0
Runs t bytes base u = consume t bytes base ≡ (u, [])

pub Runs-append :
    (t u v : QuoteTracker) (xs ys : Bytes) (base : ℕ)
    → Runs t xs base u
    → Runs u ys (base + length xs) v
    → Runs t (xs ++ ys) base v
Runs-append t u v xs ys base h k =
    consume-append t xs ys base
    ∙ ap (λ r. followed_by r (λ w. consume w ys (base + length xs))) h
    ∙ k

pub Runs-cons :
    (t u v : QuoteTracker) (b : ℕ) (ys : Bytes) (base : ℕ)
    → step_in t.state t base b ≡ (u, [])
    → Runs u ys (base + 1) v
    → Runs t (b ∷ ys) base v
unfolding consume
Runs-cons t u v b ys base h k =
    ap (λ r. ((consume r.0 ys (base + 1)).0, r.1 ++ (consume r.0 ys (base + 1)).1)) h ∙ k

pub bare-Runs :
    (d : ℕ) (o : Option ℕ) (v : Bytes) (base : ℕ)
    → All (IsBare d) v
    → Runs (tracker d unquoted o) v base (tracker d unquoted o)
bare-Runs d o [] base h = unfold consume in refl
bare-Runs d o (b ∷ v) base h =
    Runs-cons (tracker d unquoted o) (tracker d unquoted o) _ b v base
      (unfold step_in in ground arith) (bare-Runs d o v (base + 1) h.1)

pub doubled-Runs :
    (d p : ℕ) (v : Bytes) (base : ℕ)
    → Runs (tracker d (quoted p) (some p)) (doubled v) base (tracker d (quoted p) (some p))
doubled-Runs d p [] base = unfold consume in refl
doubled-Runs d p (b ∷ v) base = elim (Bool-cases (b == b'"')) [
  | inl e ↦ rw e (
      Runs-cons (tracker d (quoted p) (some p)) (tracker d after_quote (some p)) _ b'"' _ base
        (unfold step_in in refl)
        (Runs-cons (tracker d after_quote (some p)) (tracker d (quoted p) (some p)) _ b'"'
          (doubled v) (base + 1) (unfold step_in in refl) (doubled-Runs d p v (base + 1 + 1))))
  | inr e ↦ rw e (
      Runs-cons (tracker d (quoted p) (some p)) (tracker d (quoted p) (some p)) _ b (doubled v) base
        (unfold step_in in rw e refl) (doubled-Runs d p v (base + 1)))
]

-- The bytes raise no issue and leave no quote open.
abbrev pub IsQuiet : ℕ → Option ℕ → Bytes → ℕ → Type 0
IsQuiet d o bytes base =
    (u : QuoteTracker) × Runs (tracker d start_field o) bytes base u
    × (unclosed_quote_offset u ≡ none)

-- A byte that ends a field.
abbrev pub Ends : ℕ → ℕ → Type 0
Ends d e = (ends_field d e ≡ true) × (e == b'"' ≡ false)

module _ (d e : ℕ) (ends : Ends d e) (rest : Bytes)
    (quiet : (o : Option ℕ) (base : ℕ) → IsQuiet d o rest base) where
  bare-IsQuiet :
      (v : Bytes) (o : Option ℕ) (base : ℕ) → All (IsBare d) v → IsQuiet d o (v ++ e ∷ rest) base
  bare-IsQuiet [] o base h =
      let (u, k, c) = quiet o (base + 1) in
      (
        u,
        Runs-cons (tracker d start_field o) (tracker d start_field o) _ e rest base
            (unfold step_in in ground arith) k,
        c,
      )
  bare-IsQuiet (b ∷ v) o base h =
      let (u, k, c) = quiet o (base + 1 + length v + 1) in
      (
        u,
        Runs-cons (tracker d start_field o) (tracker d unquoted o) _ b (v ++ e ∷ rest) base
            (unfold step_in in ground arith)
            (Runs-append (tracker d unquoted o) (tracker d unquoted o) _ v (e ∷ rest) (base + 1)
              (bare-Runs d o v (base + 1) h.1)
              (Runs-cons (tracker d unquoted o) (tracker d start_field o) _ e rest
                (base + 1 + length v) (unfold step_in in ground arith) k)),
        c,
      )

  enclosed-IsQuiet :
      (v : Bytes) (o : Option ℕ) (base : ℕ)
      → IsQuiet d o (b'"' ∷ (doubled v ++ b'"' ∷ e ∷ rest)) base
  enclosed-IsQuiet v o base =
      let n = base + 1 + length (doubled v) in
      let (u, k, c) = quiet none (n + 1 + 1) in
      (
        u,
        Runs-cons (tracker d start_field o) (tracker d (quoted base) (some base)) _ b'"' _ base
            (unfold step_in in refl)
            (Runs-append (tracker d (quoted base) (some base)) (tracker d (quoted base) (some base))
              _ (doubled v) (b'"' ∷ e ∷ rest) (base + 1) (doubled-Runs d base v (base + 1))
              (Runs-cons (tracker d (quoted base) (some base)) (tracker d after_quote (some base)) _
                b'"' (e ∷ rest) n (unfold step_in in refl)
                (Runs-cons (tracker d after_quote (some base)) (tracker d start_field none) _ e rest
                  (n + 1) (unfold step_in in ground arith) k))),
        c,
      )

  pub field-IsQuiet :
      (f : Field) (o : Option ℕ) (base : ℕ)
      → IsPrintable d f
      → IsQuiet d o (print_field f ++ e ∷ rest) base
  field-IsQuiet (bare v) o base h = bare-IsQuiet v o base h
  field-IsQuiet (enclosed v) o base h =
      rw (append_assoc (doubled v) (b'"' ∷ []) (e ∷ rest)) (enclosed-IsQuiet v o base)

-- CR LF or LF.
pub data LineEnd : Type 0 where
  lf crlf : LineEnd

abbrev pub line_end : LineEnd → Bytes
line_end lf = b'\n' ∷ []
line_end crlf = b'\r' ∷ b'\n' ∷ []

cr_lf_Ends : (d : ℕ) → Ends d b'\r' × Ends d b'\n'
cr_lf_Ends d = ground arith

eol-IsQuiet :
    (d : ℕ) (l : LineEnd) (f : Field) (rest : Bytes) (o : Option ℕ) (base : ℕ)
    → IsPrintable d f
    → ((o : Option ℕ) (base : ℕ) → IsQuiet d o rest base)
    → IsQuiet d o (print_field f ++ (line_end l ++ rest)) base
eol-IsQuiet d lf f rest o base h k = field-IsQuiet d b'\n' (cr_lf_Ends d).1 rest k f o base h
eol-IsQuiet d crlf f rest o base h k =
    field-IsQuiet d b'\r' (cr_lf_Ends d).0 (b'\n' ∷ rest)
      (λ o b. bare-IsQuiet d b'\n' (cr_lf_Ends d).1 rest k [] o b tt) f o base h

record-IsQuiet :
    (d : ℕ) (l : LineEnd) (r : List Field) (rest : Bytes) (o : Option ℕ) (base : ℕ)
    → d ≢ b'"'
    → All (IsPrintable d) r
    → ((o : Option ℕ) (base : ℕ) → IsQuiet d o rest base)
    → IsQuiet d o (print_record d (line_end l) r ++ rest) base
record-IsQuiet d l [] rest o base n h k = eol-IsQuiet d l (bare []) rest o base tt k
record-IsQuiet d l (f ∷ []) rest o base n h k =
    rw (append_assoc (print_field f) (line_end l) rest) (eol-IsQuiet d l f rest o base h.0 k)
record-IsQuiet d l (f ∷ g ∷ fs) rest o base n h k =
    rw (append_assoc (print_field f) (d ∷ print_record d (line_end l) (g ∷ fs)) rest) (
      field-IsQuiet d d (ground arith, ground arith) (print_record d (line_end l) (g ∷ fs) ++ rest)
        (λ o b. record-IsQuiet d l (g ∷ fs) rest o b n h.1 k) f o base h.0)

records-IsQuiet :
    (d : ℕ) (l : LineEnd) (rs : List (List Field)) (o : Option ℕ) (base : ℕ)
    → d ≢ b'"'
    → All (All (IsPrintable d)) rs
    → IsQuiet d o (print_records d (line_end l) rs) base
records-IsQuiet d l [] o base n h =
    (tracker d start_field o, unfold consume in refl, unfold unclosed_quote_offset in refl)
records-IsQuiet d l (r ∷ rs) o base n h =
    record-IsQuiet d l r (print_records d (line_end l) rs) o base n h.0
      (λ o b. records-IsQuiet d l rs o b n h.1)

-- For a delimiter other than the quote, records that are printed with every quote inside quotes and
-- doubled raise no issue, whichever of the line ends they use, and leave no quote open.
pub print_records-quiet :
    (d : ℕ) (l : LineEnd) (rs : List (List Field))
    → d ≢ b'"'
    → All (All (IsPrintable d)) rs
    → ((consume (new_tracker d) (print_records d (line_end l) rs) 0).1 ≡ [])
      × (unclosed_quote_offset (consume (new_tracker d) (print_records d (line_end l) rs) 0).0
          ≡ none)
print_records-quiet d l rs n h =
    let (u, e, c) = records-IsQuiet d l rs none 0 n h in
    (ap (λ r. r.1) e, ap (λ r. unclosed_quote_offset r.0) e ∙ c)
