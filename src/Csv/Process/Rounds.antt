-- ===== src/Csv/Process/Rounds.antt =====
-- The loop over a chunk ends (csv.rs): every round leaves less of the chunk.
use tabulark.Error.{new, runtime_failure}
use tabulark.Base.{
  ℕ, zero, suc, ◌≤◌, ◌<◌, ◌≡◌, ◌≢◌, refl, Bool, true, false, [], ◌∷◌, Option, none, some, arith,
  length, drop, if◌then◌else◌, length-drop, ◌==◌, ◌&&◌,
}
use tabulark.Text.{Bytes}
use tabulark.State.{Outcome, done, fail, monad, >>=-done, ◌>>=◌, ◌>>◌, pure, throw_if}
use tabulark.Csv.Core.{CsvCore, IsDocumented, Read}
use tabulark.Csv.Scanner.{CsvScanner, Scan}
use tabulark.Csv.Process.{read_field, dispatch, round, rounds, advance}

module _ (core : CsvCore) where
  read_field-done :
      (input : Bytes) (s t : CsvScanner core) (r : Read core.Reader)
      → read_field core input s ≡ done r t
      → r ≡ core.read_field s.reader input
  unfolding read_field monad advance
  read_field-done input s t r e = ground arith

  left_over :
      (r : Read core.Reader) (leave : Bool) (input rest : Bytes) (s t : CsvScanner core)
      → (if leave
            then pure none
            else (throw_if
                  (r.consumed == 0 && length r.written == 0)
                  (new runtime_failure "CSV parser made no progress")
                >> pure (some (drop r.consumed input))))
          s
        ≡ done (some rest) t
      → rest ≡ drop r.consumed input
  unfolding monad
  left_over r true input rest s t e = ground arith
  left_over r false input rest s t e = ground arith

  cons-ne_nil : {b : ℕ} {input : Bytes} → b ∷ input ≢ []
  cons-ne_nil e = cc

  round-shorter :
      IsDocumented core
      → (b : ℕ) (input rest : Bytes) (s t : CsvScanner core)
      → round core (b ∷ input) s ≡ done (some rest) t
      → length rest < length (b ∷ input)
  unfolding round
  round-shorter doc b input rest s t e =
      let (r, u, read, e') = >>=-done (read_field core (b ∷ input)) _ s t (some rest) e in
      let (leave, v, _, last) = >>=-done (dispatch core r.result) _ u t (some rest) e' in
      let left : rest ≡ drop r.consumed (b ∷ input) = left_over r leave (b ∷ input) rest v t last in
      let some_read : 0 < r.consumed =
        rw (read_field-done (b ∷ input) s u r read)
          (doc.progress s.reader (b ∷ input) cons-ne_nil) in
      rw left (omega (arith, length-drop r.consumed (b ∷ input), some_read))

  rounds-same :
      IsDocumented core
      → (m n : ℕ) (input : Bytes) (s : CsvScanner core) → length input ≤ m
      → length input ≤ n
      → rounds core m input s ≡ rounds core n input s
  unfolding rounds ◌>>=◌
  rounds-same doc zero zero input s lm ln = refl
  rounds-same doc zero (suc n) [] s lm ln = refl
  rounds-same doc zero (suc n) (b ∷ input) s lm ln = ground arith
  rounds-same doc (suc m) zero [] s lm ln = refl
  rounds-same doc (suc m) zero (b ∷ input) s lm ln = ground arith
  rounds-same doc (suc m) (suc n) [] s lm ln = refl
  rounds-same doc (suc m) (suc n) (b ∷ input) s lm ln =
      go (λ rest u. rounds-same doc m n rest u) (round core (b ∷ input) s) refl
    where
      go :
          ((rest : Bytes) (u : CsvScanner core)
            → length rest ≤ m
            → length rest ≤ n
            → rounds core m rest u ≡ rounds core n rest u)
          → (o : Outcome (CsvScanner core) (Option Bytes)) → round core (b ∷ input) s ≡ o
          → elim o as (λ _. Outcome (CsvScanner core) (Unit {0})) [
            | done left u ↦
                elim left as (λ _. Scan core (Unit {0})) [
                  | none ↦ pure tt
                  | some rest ↦ rounds core m rest
                ]
                  u
            | fail e u ↦ fail e u
          ]
            ≡ elim o as (λ _. Outcome (CsvScanner core) (Unit {0})) [
              | done left u ↦
                  elim left as (λ _. Scan core (Unit {0})) [
                    | none ↦ pure tt
                    | some rest ↦ rounds core n rest
                  ]
                    u
              | fail e u ↦ fail e u
            ]
      go same (fail e u) h = refl
      go same (done none u) h = refl
      go same (done (some rest) u) h =
          let shorter = round-shorter doc b input rest s u h in
          same rest u (omega (arith, shorter, lm)) (omega (arith, shorter, ln))

  -- With a reader as documented, a loop that is given as many rounds as the chunk has bytes comes to
  -- its end: more rounds change neither the outcome nor the scanner.
  pub rounds-enough :
      IsDocumented core
      → (fuel : ℕ) (input : Bytes) (s : CsvScanner core) → length input ≤ fuel
      → rounds core fuel input s ≡ rounds core (length input) input s
  rounds-enough doc fuel input s le = rounds-same doc fuel (length input) input s le (omega arith)
