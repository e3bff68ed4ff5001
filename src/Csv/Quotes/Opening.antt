-- ===== src/Csv/Quotes/Opening.antt =====
-- Where an unclosed quote is reported (csv.rs).
use mathlib.Core.List.{append_assoc, append-nil}
use tabulark.Base.{
  ℕ, ◌+◌, ◌≡◌, refl, sym, subst, [], ◌∷◌, ◌++◌, arith, length, length-append, Option, some,
  get_elem?, get_elem?-append, get_elem?-length, Bool-cases, inl, inr, ◌==◌, ==_iff,
}
use tabulark.Text.{Bytes}
use tabulark.Csv.Quotes.{
  QuoteTracker, QuoteState, start_field, unquoted, quoted, after_quote, step_in, consume,
  unclosed_quote_offset, new_tracker,
}

-- `o` is the place of a quote among the bytes seen so far.
abbrev IsQuote : Bytes → ℕ → Type 0
IsQuote seen o = get_elem? seen o ≡ some b'"'

abbrev Marks : Bytes → QuoteState → Option ℕ → Type 0
Marks seen start_field opening = Unit {0}
Marks seen unquoted opening = Unit {0}
Marks seen (quoted o) opening = IsQuote seen o × (opening ≡ some o)
Marks seen after_quote opening = (o : ℕ) × IsQuote seen o × (opening ≡ some o)

step_in-Marks :
    (s : QuoteState) (t : QuoteTracker) (seen : Bytes) (byte : ℕ)
    → t.state ≡ s
    → Marks seen s t.quoted_opening
    → Marks
        (seen ++ byte ∷ [])
        (step_in s t (length seen) byte).0.state
        (step_in s t (length seen) byte).0.quoted_opening
unfolding step_in
step_in-Marks start_field t seen byte e m = elim (Bool-cases (byte == b'"')) [
  | inl q ↦ rw q (
    subst (λ b. get_elem? (seen ++ b ∷ []) (length seen) ≡ some b'"') (sym ((==_iff byte b'"').0 q))
        (get_elem?-length seen b'"' []),
    refl,
  )
  | inr n ↦ rw (n, e) (ground arith)
]
step_in-Marks unquoted t seen byte e m = ground arith
step_in-Marks (quoted o) t seen byte e m = ground (arith, get_elem?-append seen (byte ∷ []) o b'"')
step_in-Marks after_quote t seen byte e (o, q, p) =
    ground (arith, get_elem?-append seen (byte ∷ []) o b'"' q)

consume-Marks :
    (t : QuoteTracker) (seen bytes : Bytes) (n : ℕ)
    → n ≡ length seen
    → Marks seen t.state t.quoted_opening
    → Marks (seen ++ bytes) (consume t bytes n).0.state (consume t bytes n).0.quoted_opening
unfolding consume
consume-Marks t seen [] n e m = rw (append-nil seen) m
consume-Marks t seen (b ∷ bs) n e m =
    let u = (step_in t.state t n b).0 in
    let m' : Marks (seen ++ b ∷ []) u.state u.quoted_opening =
      rw e (step_in-Marks t.state t seen b refl m) in
    rw (append_assoc seen (b ∷ []) bs) at
      (consume-Marks u (seen ++ b ∷ []) bs (n + 1) (omega (arith, length-append seen (b ∷ []))) m')

unclosed-Marks :
    (t : QuoteTracker) (seen : Bytes) (o : ℕ)
    → Marks seen t.state t.quoted_opening
    → unclosed_quote_offset t ≡ some o
    → IsQuote seen o
unfolding unclosed_quote_offset
unclosed-Marks t seen o m e = ground arith

-- The offset reported for a field that is not terminated, after the whole source was fed, is that of
-- a quote in the source.
pub unclosed-IsQuote :
    (delimiter : ℕ) (bytes : Bytes) (o : ℕ)
    → unclosed_quote_offset (consume (new_tracker delimiter) bytes 0).0 ≡ some o
    → get_elem? bytes o ≡ some b'"'
unclosed-IsQuote delimiter bytes o e =
    unclosed-Marks _ bytes o (consume-Marks (new_tracker delimiter) [] bytes 0 refl tt) e
