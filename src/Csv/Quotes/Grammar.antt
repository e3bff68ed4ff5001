-- ===== src/Csv/Quotes/Grammar.antt =====
-- Well-quoted texts, which raise no issue (csv.rs).
pub mod Exact
use mathlib.Core.List.{append_assoc, append-nil}
use tabulark.Base.{
  ℕ, ◌+◌, ◌≡◌, ◌⊎◌, ◌↔◌, inl, inr, refl, sym, ap, ◌∙◌, true, false, ◌||◌, List, [], ◌∷◌, ◌++◌,
  arith, length, All, Option, none, some, ◌==◌, ==_iff, Bool-cases,
}
use tabulark.Text.{Bytes}
use tabulark.Csv.Quotes.{
  QuoteTracker, QuoteState, QuoteIssue, start_field, unquoted, quoted, after_quote, step_in,
  ends_field, consume, unclosed_quote_offset, new_tracker,
}
use tabulark.Csv.Quotes.WellFormed.{
  Field, bare, enclosed, doubled, print_field, IsBare, IsPrintable, tracker, Runs, Runs-append,
  Runs-cons, bare-Runs, doubled-Runs, Ends, IsQuiet, field-IsQuiet,
}

-- Fields with a byte that ends a field behind each but the last.
pub data QuotedText : Type 0 where
  last : Field → QuotedText
  then : Field → ℕ → QuotedText → QuotedText

abbrev pub print_text : QuotedText → Bytes
print_text (last f) = print_field f
print_text (then f e t) = print_field f ++ e ∷ print_text t

abbrev pub IsWellQuoted : ℕ → QuotedText → Type 0
IsWellQuoted d (last f) = IsPrintable d f
IsWellQuoted d (then f e t) = IsPrintable d f × Ends d e × IsWellQuoted d t

-- The bytes are those of a well-quoted text.
abbrev pub Reads : ℕ → Bytes → Type 0
Reads d bytes = (t : QuotedText) × IsWellQuoted d t × (bytes ≡ print_text t)

-- No issue, and no quote left open.
abbrev pub RaisesNone : QuoteTracker → Bytes → ℕ → Type 0
RaisesNone t bytes base =
    ((consume t bytes base).1 ≡ []) × (unclosed_quote_offset (consume t bytes base).0 ≡ none)

last-IsQuiet :
    (d : ℕ) (f : Field) (o : Option ℕ) (base : ℕ)
    → IsPrintable d f
    → IsQuiet d o (print_field f) base
last-IsQuiet d (bare []) o base h =
    (tracker d start_field o, unfold consume in refl, unfold unclosed_quote_offset in refl)
last-IsQuiet d (bare (b ∷ v)) o base h = (
  tracker d unquoted o,
  Runs-cons (tracker d start_field o) (tracker d unquoted o) _ b v base
      (unfold step_in in ground arith) (bare-Runs d o v (base + 1) h.1),
  unfold unclosed_quote_offset in refl,
)
last-IsQuiet d (enclosed v) o base h = (
  tracker d after_quote (some base),
  Runs-cons (tracker d start_field o) (tracker d (quoted base) (some base))
      (tracker d after_quote (some base)) b'"' _ base (unfold step_in in refl)
      (Runs-append (tracker d (quoted base) (some base)) (tracker d (quoted base) (some base))
        (tracker d after_quote (some base)) (doubled v) (b'"' ∷ []) (base + 1)
        (doubled-Runs d base v (base + 1))
        (Runs-cons (tracker d (quoted base) (some base)) (tracker d after_quote (some base))
          (tracker d after_quote (some base)) b'"' [] (base + 1 + length (doubled v))
          (unfold step_in in refl) (unfold consume in refl))),
  unfold unclosed_quote_offset in refl,
)

pub text-IsQuiet :
    (d : ℕ) (t : QuotedText) (o : Option ℕ) (base : ℕ)
    → IsWellQuoted d t
    → IsQuiet d o (print_text t) base
text-IsQuiet d (last f) o base h = last-IsQuiet d f o base h
text-IsQuiet d (then f e t) o base h =
    field-IsQuiet d e h.1 (print_text t) (λ o b. text-IsQuiet d t o b h.2) f o base h.0
