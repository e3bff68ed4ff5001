-- ===== src/Csv/Decode/Eof.antt =====
-- At the end of the source a range decoder is done (csv.rs).
use tabulark.Base.{ℕ, zero, suc, ◌≢◌, Bool, true, false, if◌then◌else◌}
use tabulark.Text.{Bytes}
use tabulark.Error.{TabularkError}
use tabulark.State.{done, >>=-done, ◌>>=◌, ◌>>◌, pure, throw}
use tabulark.Model.Batch.{TableBatch}
use tabulark.Csv.Core.{CsvCore}
use tabulark.Csv.Decoder.{RangeDecoder, Decode}
use tabulark.Csv.Decode.{
  RangeDecodeStatus, need_more, complete, drain, finish_eof, feed_chunk, finish_short, finish_done,
}

module _ (core : CsvCore) where
  -- The method never succeeds with `need_more`.
  record Ends (m : Decode core RangeDecodeStatus) : Type 0 where
    pub end : (s t : RangeDecoder core) → m s ≢ done need_more t

  Ends-throw : (e : TabularkError) → Ends (throw e)
  unfolding throw
  Ends-throw e = record { end = λ s t h. cc }

  Ends-complete : (b : TableBatch) → Ends (pure (complete b))
  unfolding pure
  Ends-complete b = record { end = λ s t h. cc }

  Ends-bind :
      {A : Type 0} (m : Decode core A) {f : A → Decode core RangeDecodeStatus}
      → ((a : A) → Ends (f a))
      → Ends (m >>= f)
  Ends-bind {A} m {f} h = record {
    end = λ s t e. let (a, u, _, last) = >>=-done m f s t need_more e in (h a).end u t last;
  }

  Ends-seq :
      (m : Decode core (Unit {0})) {k : Decode core RangeDecodeStatus} → Ends k → Ends (m >> k)
  unfolding ◌>>◌
  Ends-seq m h = Ends-bind m (λ _. h)

  Ends-if :
      (b : Bool) {m n : Decode core RangeDecodeStatus} → Ends m → Ends n → Ends (if b then m else n)
  Ends-if true hm hn = hm
  Ends-if false hm hn = hn

  drained :
      (ended over : Bool) {rest : Decode core RangeDecodeStatus}
      → Ends rest
      → Ends (elim ended [
        | true ↦ finish_short core
        | false ↦ elim over [ true ↦ finish_done core | false ↦ rest ]
      ])
  drained true over h = Ends-bind _ λ s. Ends-bind _ λ b. Ends-complete b
  drained false true h = Ends-bind _ λ b. Ends-complete b
  drained false false h = h

  drain-Ends : (n : ℕ) → Ends (drain core n)
  unfolding drain
  drain-Ends zero = Ends-throw _
  drain-Ends (suc n) = Ends-bind _ λ s.
      Ends-seq _ (Ends-seq _ (Ends-bind _ λ ended. Ends-bind _ λ t. drained _ _ (drain-Ends n)))

  finish_eof-Ends : Ends (finish_eof core)
  unfolding finish_eof
  finish_eof-Ends = Ends-bind _ λ s. Ends-seq _ (drain-Ends 4)

  feed_eof-Ends : (offset : ℕ) (bytes : Bytes) → Ends (feed_chunk core offset bytes true)
  unfolding feed_chunk
  feed_eof-Ends offset bytes = Ends-bind _ λ s. Ends-seq _ (
      Ends-seq _ (
        Ends-seq _ (
          Ends-seq _ (
            Ends-seq _ (
              Ends-bind _
                λ t. Ends-if t.done (Ends-bind _ λ b. Ends-complete b) finish_eof-Ends)))))

  -- The last slice of the source is never answered by a request for more: the decoder completes the
  -- batch or fails.
  pub feed_chunk-ends :
      (offset : ℕ) (bytes : Bytes) (s t : RangeDecoder core)
      → feed_chunk core offset bytes true s ≢ done need_more t
  feed_chunk-ends offset bytes s t = (feed_eof-Ends offset bytes).end s t
