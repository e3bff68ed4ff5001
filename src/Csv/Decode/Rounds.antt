-- ===== src/Csv/Decode/Rounds.antt =====
-- The loop over a slice ends (csv.rs): every round leaves less of the slice.
use tabulark.Error.{new, runtime_failure}
use tabulark.Base.{
  ℕ, zero, suc, ◌≤◌, ◌<◌, ◌≡◌, ◌≢◌, refl, Bool, true, false, [], ◌∷◌, Option, none, some, arith,
  length, drop, if◌then◌else◌, length-drop, ◌==◌, ◌&&◌,
}
use tabulark.Text.{Bytes}
use tabulark.State.{Outcome, done, fail, monad, >>=-done, ◌>>=◌, ◌>>◌, pure, throw_if, get}
use tabulark.Csv.Core.{CsvCore, IsDocumented, Read}
use tabulark.Csv.Decoder.{RangeDecoder, Decode}
use tabulark.Csv.Decode.{read_field, dispatch, round, rounds, advance}

module _ (core : CsvCore) where
  read_field-done :
      (input : Bytes) (s t : RangeDecoder core) (r : Read core.Reader)
      → read_field core input s ≡ done r t
      → r ≡ core.read_field s.reader input
  unfolding read_field monad advance
  read_field-done input s t r e = ground arith

  left_over :
      (r : Read core.Reader) (leave : Bool) (input rest : Bytes) (s t : RangeDecoder core)
      → (if leave
            then pure none
            else (throw_if
                  (r.consumed == 0 && length r.written == 0)
                  (new runtime_failure "range parser made no progress")
                >> pure (some (drop r.consumed input))))
          s
        ≡ done (some rest) t
      → rest ≡ drop r.consumed input
  unfolding monad
  left_over r true input rest s t e = ground arith
  left_over r false input rest s t e = ground arith

  cons-ne_nil : {b : ℕ} {input : Bytes} → b ∷ input ≢ []
  cons-ne_nil e = cc

  round-shorter :
      IsDocumented core
      → (b : ℕ) (input rest : Bytes) (s t : RangeDecoder core)
      → round core (b ∷ input) s ≡ done (some rest) t
      → length rest < length (b ∷ input)
  unfolding round
  round-shorter doc b input rest s t e =
      let (r, u, read, e') = >>=-done (read_field core (b ∷ input)) _ s t (some rest) e in
      let (leave, v, _, last) = >>=-done (dispatch core r.result) _ u t (some rest) e' in
      let left : rest ≡ drop r.consumed (b ∷ input) = left_over r leave (b ∷ input) rest v t last in
      let some_read : 0 < r.consumed =
        rw (read_field-done (b ∷ input) s u r read)
          (doc.progress s.reader (b ∷ input) cons-ne_nil) in
      rw left (omega (arith, length-drop r.consumed (b ∷ input), some_read))

  unless_done :
      (finished : Bool) (s : RangeDecoder core) (x y : Decode core (Unit {0}))
      → x s ≡ y s
      → (elim finished as (λ _. Decode core (Unit {0})) [ true ↦ pure tt | false ↦ x ]) s
        ≡ (elim finished as (λ _. Decode core (Unit {0})) [ true ↦ pure tt | false ↦ y ]) s
  unless_done true s x y e = refl
  unless_done false s x y e = e

  rounds-same :
      IsDocumented core
      → (m n : ℕ) (input : Bytes) (s : RangeDecoder core) → length input ≤ m
      → length input ≤ n
      → rounds core m input s ≡ rounds core n input s
  unfolding rounds ◌>>=◌ get
  rounds-same doc zero zero input s lm ln = refl
  rounds-same doc zero (suc n) [] s lm ln = refl
  rounds-same doc zero (suc n) (b ∷ input) s lm ln = ground arith
  rounds-same doc (suc m) zero [] s lm ln = refl
  rounds-same doc (suc m) zero (b ∷ input) s lm ln = ground arith
  rounds-same doc (suc m) (suc n) [] s lm ln = refl
  rounds-same doc (suc m) (suc n) (b ∷ input) s lm ln =
      unless_done s.done s (round core (b ∷ input) >>= next m) (round core (b ∷ input) >>= next n)
        (go (λ rest u. rounds-same doc m n rest u) (round core (b ∷ input) s) refl)
    where
      next : ℕ → Option Bytes → Decode core (Unit {0})
      next k left = elim left [ none ↦ pure tt | some rest ↦ rounds core k rest ]

      go :
          ((rest : Bytes) (u : RangeDecoder core)
            → length rest ≤ m
            → length rest ≤ n
            → rounds core m rest u ≡ rounds core n rest u)
          → (o : Outcome (RangeDecoder core) (Option Bytes)) → round core (b ∷ input) s ≡ o
          → elim o as (λ _. Outcome (RangeDecoder core) (Unit {0})) [
            | done left u ↦
                elim left as (λ _. Decode core (Unit {0})) [
                  | none ↦ pure tt
                  | some rest ↦ rounds core m rest
                ]
                  u
            | fail e u ↦ fail e u
          ]
            ≡ elim o as (λ _. Outcome (RangeDecoder core) (Unit {0})) [
              | done left u ↦
                  elim left as (λ _. Decode core (Unit {0})) [
                    | none ↦ pure tt
                    | some rest ↦ rounds core n rest
                  ]
                    u
              | fail e u ↦ fail e u
            ]
      go same (fail e u) h = refl
      go same (done none u) h = refl
      go same (done (some rest) u) h =
          let shorter = round-shorter doc b input rest s u h in
          same rest u (omega (arith, shorter, lm)) (omega (arith, shorter, ln))

  -- With a reader as documented, a loop that is given as many rounds as the slice has bytes comes to
  -- its end: more rounds change neither the outcome nor the decoder.
  pub rounds-suffice :
      IsDocumented core
      → (fuel : ℕ) (input : Bytes) (s : RangeDecoder core) → length input ≤ fuel
      → rounds core fuel input s ≡ rounds core (length input) input s
  rounds-suffice doc fuel input s le = rounds-same doc fuel (length input) input s le (omega arith)
