-- ===== src/Tests/Quoting.antt =====
-- Examples for the quote tracker (csv.rs).
use tabulark.Base.{◌≡◌, ◌↔◌, refl, arith, All, List, [], ◌∷◌, none, some, get_elem?}
use tabulark.Text.{codes}
use tabulark.Csv.Quotes.{new_tracker, consume, step_in, unclosed_quote_offset}
use tabulark.Csv.Quotes.Grammar.{QuotedText, last, then, print_text, IsWellQuoted, RaisesNone}
use tabulark.Csv.Quotes.Grammar.Exact.{consume-IsWellQuoted}
use tabulark.Csv.Quotes.Opening.{unclosed-IsQuote}
use tabulark.Csv.Quotes.WellFormed.{
  Field, bare, enclosed, IsPrintable, print_records, line_end, crlf, print_records-quiet,
}

consume-IsWellQuoted_example :
    RaisesNone (new_tracker b',') (codes "a,\"b\"\"\"\nc") 0
    ↔ ((t : QuotedText) × IsWellQuoted b',' t × (codes "a,\"b\"\"\"\nc" ≡ print_text t))
consume-IsWellQuoted_example = consume-IsWellQuoted b',' (codes "a,\"b\"\"\"\nc")

-- Both sides hold there.
well_quoted : (t : QuotedText) × IsWellQuoted b',' t × (codes "a,\"b\"\"\"\nc" ≡ print_text t)
well_quoted = (
  then (bare (codes "a")) b',' (then (enclosed (codes "b\"")) b'\n' (last (bare (codes "c")))),
  ground arith,
  refl,
)

unclosed_example : unclosed_quote_offset (consume (new_tracker b',') (codes "a,\"b") 0).0 ≡ some 2
unfolding consume step_in unclosed_quote_offset
unclosed_example = refl

unclosed-IsQuote_example : get_elem? (codes "a,\"b") 2 ≡ some b'"'
unclosed-IsQuote_example = unclosed-IsQuote b',' (codes "a,\"b") 2 unclosed_example

abbrev records : List (List Field)
records = (bare (codes "a") ∷ enclosed (codes "b\"c,") ∷ []) ∷ (bare [] ∷ []) ∷ []

records-IsPrintable : All (All (IsPrintable b',')) records
records-IsPrintable = ground arith

print_records-quiet_example :
    ((consume (new_tracker b',') (print_records b',' (line_end crlf) records) 0).1 ≡ [])
    × (unclosed_quote_offset
          (consume (new_tracker b',') (print_records b',' (line_end crlf) records) 0).0
        ≡ none)
print_records-quiet_example =
    print_records-quiet b',' crlf records (omega arith) records-IsPrintable
