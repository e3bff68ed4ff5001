-- ===== src/Csv/Scanner/Index.antt =====
-- The sparse index of a scanner (csv.rs): a checkpoint at least every `checkpoint_interval` rows.
use tabulark.Utf8.{is_valid, lossy}
use tabulark.Csv.Diagnostics.{diagnostic_error, retain}
use tabulark.Base.{
  ℕ, zero, suc, ◌+◌, ◌%◌, ◌≤◌, ◌<◌, ◌≡◌, ◌≢◌, refl, Bool, true, false, List, [], ◌∷◌, ◌++◌, arith,
  ==_iff, if◌then◌else◌,
}
use native.Mathlib.Nat.{add-mod_right, zero-mod}
use tabulark.Text.{Bytes}
use tabulark.State.{state_of, done, fail, modify, monad, ◌>>=◌, ◌>>◌}
use tabulark.State.Keeps.{
  Keeps, Keeps-bind, Keeps-seq, Keeps-modify, Keeps-get, Keeps-some_or, Keeps-throw_if, Keeps-if,
  Keeps-pure, Keeps-lift, seq-leads,
}
use tabulark.Csv.Core.{CsvCore}
use tabulark.Csv.Options.{strict, lenient, CsvDiagnostic, CsvCheckpoint, ParseMode}
use tabulark.Csv.Scanner.{
  CsvScanner, handle_diagnostic, append_field, finish_field, add_columns, ensure_columns,
  finish_record, take_field, add_checkpoint, fit_schema, count_row,
}

-- After a checkpoint at row `p`, the checkpoints go on in steps of at most `n` rows, at multiples
-- of `n`, up to `rows`, which the last one is at most `n` short of.
abbrev pub Spans : ℕ → ℕ → ℕ → List CsvCheckpoint → Type 0
Spans n rows p [] = (p ≤ rows) × (rows ≤ p + n)
Spans n rows p (c ∷ cs) = (p ≤ c.row) × (c.row ≤ p + n) × (c.row % n ≡ 0) × Spans n rows c.row cs

-- The first checkpoint is at row 0, and there is one as soon as there are rows.
abbrev pub Indexes : ℕ → ℕ → List CsvCheckpoint → Type 0
Indexes n rows [] = rows ≡ 0
Indexes n rows (c ∷ cs) = (c.row ≡ 0) × Spans n rows 0 cs

mod_next : (n p : ℕ) → 0 < n → p % n ≡ 0 → (p + n) % n ≡ 0
mod_next n p h e = ground (arith, add-mod_right p n)

Spans-next :
    (n rows p : ℕ) (cs : List CsvCheckpoint)
    → 0 < n
    → p % n ≡ 0
    → rows % n ≢ 0
    → Spans n rows p cs
    → Spans n (rows + 1) p cs
Spans-next n rows p [] pos e ne h = ground (arith, mod_next n p pos e)
Spans-next n rows p (c ∷ cs) pos e ne h = (h.0, h.1, h.2, Spans-next n rows c.row cs pos h.2 ne h.3)

Spans-snoc :
    (n rows p : ℕ) (c : CsvCheckpoint) (cs : List CsvCheckpoint)
    → 0 < n
    → c.row ≡ rows
    → rows % n ≡ 0
    → Spans n rows p cs
    → Spans n rows p (cs ++ c ∷ []) × Spans n (rows + 1) p (cs ++ c ∷ [])
Spans-snoc n rows p c [] pos r e h = ground arith
Spans-snoc n rows p c (d ∷ cs) pos r e h =
    let rest = Spans-snoc n rows d.row c cs pos r e h.3 in
    ((h.0, h.1, h.2, rest.0), (h.0, h.1, h.2, rest.1))

zero_mod : (n : ℕ) → 0 < n → 0 % n ≡ 0
zero_mod n h = zero-mod n

Indexes-next :
    (n rows : ℕ) (cs : List CsvCheckpoint)
    → 0 < n
    → rows % n ≢ 0
    → Indexes n rows cs
    → Indexes n (rows + 1) cs
Indexes-next n rows [] pos ne h = ground (arith, zero_mod n pos)
Indexes-next n rows (c ∷ cs) pos ne h = (h.0, Spans-next n rows 0 cs pos (zero_mod n pos) ne h.1)

Indexes-snoc :
    (n rows : ℕ) (c : CsvCheckpoint) (cs : List CsvCheckpoint)
    → 0 < n
    → c.row ≡ rows
    → rows % n ≡ 0
    → Indexes n rows cs
    → Indexes n rows (cs ++ c ∷ []) × Indexes n (rows + 1) (cs ++ c ∷ [])
Indexes-snoc n rows c [] pos r e h = omega arith
Indexes-snoc n rows c (d ∷ cs) pos r e h =
    let rest = Spans-snoc n rows 0 c cs pos r e h.1 in ((h.0, rest.0), (h.0, rest.1))

module _ (core : CsvCore) where
  -- A relation of the interval, the rows and the checkpoints.
  abbrev pub On : (ℕ → ℕ → List CsvCheckpoint → Type 0) → CsvScanner core → Type 0
  On R s = R s.options.checkpoint_interval s.rows s.checkpoints

  abbrev pub IsIndexed : CsvScanner core → Type 0
  IsIndexed = On (λ n rows cs. (0 < n) × Indexes n rows cs)

  -- Ready for the row at hand to be counted.
  abbrev IsReady : CsvScanner core → Type 0
  IsReady = On (λ n rows cs. (0 < n) × Indexes n rows cs × Indexes n (rows + 1) cs)

  add_checkpoint-IsReady : (s : CsvScanner core) → IsIndexed s → IsReady (add_checkpoint core s)
  add_checkpoint-IsReady s h = ground (
    arith,
    Indexes-next s.options.checkpoint_interval s.rows s.checkpoints h.0,
    Indexes-snoc s.options.checkpoint_interval s.rows
        (record { row = s.rows; byte_offset = s.record_start_offset }) s.checkpoints h.0 refl,
    (==_iff (s.rows % s.options.checkpoint_interval) 0),
  )

  -- What leaves the options, the rows and the checkpoints alone.
  module _ (R : ℕ → ℕ → List CsvCheckpoint → Type 0) where
    pub handle_diagnostic-On : (d : CsvDiagnostic) → Keeps (On R) (handle_diagnostic core d)
    unfolding handle_diagnostic
    handle_diagnostic-On d = record { keep = λ s h. go s.options.mode s h }
      where
        go :
            (mode : ParseMode) (s : CsvScanner core)
            → On R s
            → On R (
                state_of (elim mode [
                  | strict ↦ fail (diagnostic_error d) s
                  | lenient ↦ done tt (record s { diagnostics = retain s.options s.diagnostics d })
                ]))
        go strict s h = h
        go lenient s h = h

    pub append_field-On : (bytes : Bytes) → Keeps (On R) (append_field core bytes)
    unfolding append_field
    append_field-On bytes = Keeps-bind Keeps-get λ s.
        Keeps-bind (Keeps-some_or _ _)
          λ n. Keeps-seq (Keeps-throw_if _ _) (Keeps-modify _ (λ t h. h))

    take_field-On : (s : CsvScanner core) → On R s → On R (take_field core s)
    take_field-On s h = go s.header_pending
      where
        go :
            (pending : Bool)
            → On R (
                if pending
                then record s {
                  field = [];
                  header_names =
                      s.header_names ++ (if is_valid s.field then s.field else lossy s.field) ∷ [];
                }
                else record s { field = [] })
        go true = h
        go false = h

    pub finish_field-On : Keeps (On R) (finish_field core)
    unfolding finish_field
    finish_field-On = Keeps-bind Keeps-get λ s. Keeps-bind (Keeps-some_or _ _) λ n.
        Keeps-seq (Keeps-modify _ (λ t h. h)) (
          Keeps-seq (Keeps-throw_if _ _) (
            Keeps-seq (Keeps-if _ (Keeps-pure tt) (handle_diagnostic-On _))
              (Keeps-modify _ take_field-On)))

    add_columns-On :
        (count index : ℕ) (names : List Bytes) → Keeps (On R) (add_columns core count index names)
    unfolding add_columns
    add_columns-On zero index names = Keeps-pure tt
    add_columns-On (suc count) index names =
        Keeps-bind (Keeps-lift _)
          λ c. Keeps-seq (Keeps-modify _ (λ t h. h)) (add_columns-On count (index + 1) names)

    ensure_columns-On :
        (count : ℕ) (names : List Bytes) → Keeps (On R) (ensure_columns core count names)
    unfolding ensure_columns
    ensure_columns-On count names = Keeps-bind Keeps-get λ s. Keeps-seq (Keeps-throw_if _ _) (
        Keeps-if _ (Keeps-pure tt) (
          Keeps-seq (add_columns-On _ _ _) (
            Keeps-bind Keeps-get
              λ t. Keeps-bind (Keeps-some_or _ _) λ v. Keeps-modify _ (λ u h. h))))

    fit_schema-On : (fields : ℕ) → Keeps (On R) (fit_schema core fields)
    fit_schema-On fields = Keeps-bind Keeps-get λ s. Keeps-if _ (ensure_columns-On fields []) (
        Keeps-if _ (Keeps-pure tt) (
          Keeps-seq (handle_diagnostic-On _)
            (Keeps-if _ (ensure_columns-On fields []) (Keeps-pure tt))))

  count_row-IsIndexed : (s : CsvScanner core) → IsReady s → IsIndexed (state_of (count_row core s))
  unfolding monad
  count_row-IsIndexed s h = ground arith

  count_data-IsIndexed :
      (fields : ℕ)
      → Keeps IsIndexed (modify (add_checkpoint core) >> (fit_schema core fields >> count_row core))
  unfolding modify ◌>>=◌ ◌>>◌
  count_data-IsIndexed fields = record {
    keep = λ s h.
        seq-leads {P = IsReady} {Q = IsIndexed} (fit_schema core fields) (count_row core)
          (fit_schema-On (λ n rows cs. (0 < n) × Indexes n rows cs × Indexes n (rows + 1) cs)
            fields)
          (λ t r. (r.0, r.1)) count_row-IsIndexed (add_checkpoint core s)
          (add_checkpoint-IsReady s h);
  }

  pub finish_record-IsIndexed : Keeps IsIndexed (finish_record core)
  unfolding finish_record
  finish_record-IsIndexed = Keeps-bind Keeps-get λ s. Keeps-seq (Keeps-modify _ (λ t h. h)) (
      Keeps-seq
        (Keeps-if _
          (Keeps-seq (Keeps-modify _ (λ t h. h)) (
            Keeps-seq (ensure_columns-On (λ n rows cs. (0 < n) × Indexes n rows cs) _ _)
              (Keeps-modify _ (λ t h. h))))
          (count_data-IsIndexed _))
        (Keeps-modify _ (λ t h. h)))
