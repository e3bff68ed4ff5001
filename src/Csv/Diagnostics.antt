-- ===== src/Csv/Diagnostics.antt =====
-- src/csv.rs: what both parsers do with a diagnostic.
use tabulark.Base.{ℕ, List, [], ◌∷◌, ◌++◌, Option, none, some, length, ltb, if◌then◌else◌}
use tabulark.Error.{TabularkError, new, with_detail, number, string, parse_failed}
use tabulark.Csv.Options.{DelimitedOptions, CsvDiagnostic, kind_name}

abbrev with_row : Option ℕ → TabularkError → TabularkError
with_row none e = e
with_row (some row) e = with_detail e "row" (number row)

-- The error that strict mode makes of a diagnostic.
unfoldable pub diagnostic_error : CsvDiagnostic → TabularkError
diagnostic_error d = with_row d.row (
    with_detail (with_detail (new parse_failed d.message) "kind" (string (kind_name d.kind)))
      "byteOffset" (number d.byte_offset))

-- Lenient mode keeps the first diagnostics.
abbrev pub retain : DelimitedOptions → List CsvDiagnostic → CsvDiagnostic → List CsvDiagnostic
retain o ds d = if ltb (length ds) o.limits.max_diagnostics then ds ++ d ∷ [] else ds

-- `.with_detail("expectedOffset", …).with_detail("actualOffset", …)`
abbrev pub offset_error : TabularkError → ℕ → ℕ → TabularkError
offset_error e expected actual =
    with_detail (with_detail e "expectedOffset" (number expected)) "actualOffset" (number actual)
