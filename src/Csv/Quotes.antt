-- ===== src/Csv/Quotes.antt =====
-- src/csv.rs: `QuoteTracker`, which watches the quoting beside the parser.
pub mod Chunks
pub mod Opening
pub mod WellFormed
pub mod Grammar
use tabulark.Base.{
  ℕ, ◌+◌, ◌≡◌, Bool, ◌||◌, List, [], ◌∷◌, ◌++◌, Option, none, some, String, ◌==◌, if◌then◌else◌,
}
use tabulark.Text.{Bytes}

pub data QuoteState : Type 0 where
  start_field unquoted after_quote : QuoteState
  quoted : ℕ → QuoteState

pub record QuoteIssue : Type 0 where
  pub offset : ℕ
  pub message : String

pub record QuoteTracker : Type 0 where
  pub delimiter : ℕ
  pub state : QuoteState
  pub quoted_opening : Option ℕ

-- `QuoteTracker::new`
abbrev pub new_tracker : ℕ → QuoteTracker
new_tracker delimiter = record { delimiter = delimiter; state = start_field; quoted_opening = none }

-- The delimiter, CR or LF.
abbrev pub ends_field : ℕ → ℕ → Bool
ends_field delimiter byte = byte == delimiter || byte == b'\r' || byte == b'\n'

abbrev or_offset : Option ℕ → ℕ → ℕ
or_offset none offset = offset
or_offset (some opening) offset = opening

abbrev issue_at : ℕ → String → List QuoteIssue
issue_at offset message = record { offset = offset; message = message } ∷ []

-- The match on the state, for one byte.
unfoldable pub step_in : QuoteState → QuoteTracker → ℕ → ℕ → QuoteTracker × List QuoteIssue
step_in start_field t offset byte =
    if byte == b'"'
    then (record t { state = quoted offset; quoted_opening = some offset }, [])
    else if ends_field t.delimiter byte
    then (t, [])
    else (record t { state = unquoted }, [])
step_in unquoted t offset byte =
    if byte == b'"'
    then (t, issue_at offset "quote appears inside an unquoted field")
    else if ends_field t.delimiter byte
    then (record t { state = start_field }, [])
    else (t, [])
step_in (quoted opening) t offset byte =
    if byte == b'"' then (record t { state = after_quote }, []) else (t, [])
step_in after_quote t offset byte =
    if byte == b'"'
    then (record t { state = quoted (or_offset t.quoted_opening offset) }, [])
    else if ends_field t.delimiter byte
    then (record t { state = start_field; quoted_opening = none }, [])
    else (
      record t { state = unquoted; quoted_opening = none },
      issue_at offset "unexpected data follows a closing quote",
    )

abbrev pub step : QuoteTracker → ℕ → ℕ → QuoteTracker × List QuoteIssue
step t offset byte = step_in t.state t offset byte

-- `consume`; the offset is that of the first byte. The sum with the index is not cut off at 64 bits:
-- the bytes are in memory and the offset is that of a source.
unfoldable pub consume : QuoteTracker → Bytes → ℕ → QuoteTracker × List QuoteIssue
consume t [] base = (t, [])
consume t (byte ∷ bytes) base =
    let (t', issues) = step t base byte in
    let (t'', rest) = consume t' bytes (base + 1) in (t'', issues ++ rest)

unfoldable pub unclosed_quote_offset : QuoteTracker → Option ℕ
unclosed_quote_offset t = elim t.state [ quoted opening ↦ some opening | _ ↦ none ]
