-- ===== src/Csv/Quotes/Chunks.antt =====
-- Quoting does not depend on how the source is cut into chunks (csv.rs).
use mathlib.Core.List.{append_assoc}
use tabulark.Base.{
  ℕ, ◌+◌, ◌≤◌, ◌<◌, ◌≡◌, sym, ap, ◌∙◌, List, [], ◌∷◌, ◌++◌, arith, length, All, All-append,
}
use tabulark.Text.{Bytes}
use tabulark.Csv.Quotes.{
  QuoteTracker, QuoteIssue, QuoteState, start_field, unquoted, quoted, after_quote, step, step_in,
  consume,
}

-- Two calls of `consume` in a row: the issues of the first, then those of the second.
abbrev pub followed_by :
    QuoteTracker × List QuoteIssue
    → (QuoteTracker → QuoteTracker × List QuoteIssue)
    → QuoteTracker × List QuoteIssue
followed_by r k = ((k r.0).0, r.1 ++ (k r.0).1)

-- Feeding two chunks one after the other gives the tracker and the issues of feeding them joined.
pub consume-append :
    (t : QuoteTracker) (xs ys : Bytes) (base : ℕ)
    → consume t (xs ++ ys) base
      ≡ followed_by (consume t xs base) (λ u. consume u ys (base + length xs))
unfolding consume
consume-append t [] ys base = ap (consume t ys) (omega arith)
consume-append t (x ∷ xs) ys base =
    let (t', issues) = step t base x in
    let e : base + 1 + length xs ≡ base + length (x ∷ xs) = omega arith in
    let ih =
      consume-append t' xs ys (base + 1)
      ∙ ap (λ b. followed_by (consume t' xs (base + 1)) (λ u. consume u ys b)) e in
    ap (λ r. (r.0, issues ++ r.1)) ih
    ∙ ap (λ l. ((consume (consume t' xs (base + 1)).0 ys (base + length (x ∷ xs))).0, l))
        (sym (append_assoc issues _ _))

abbrev InChunk : ℕ → ℕ → QuoteIssue → Type 0
InChunk lo hi i = (lo ≤ i.offset) × (i.offset < hi)

step_in-InChunk :
    (s : QuoteState) (t : QuoteTracker) (offset byte : ℕ)
    → All (InChunk offset (offset + 1)) (step_in s t offset byte).1
unfolding step_in
step_in-InChunk start_field t offset byte = ground arith
step_in-InChunk unquoted t offset byte = ground arith
step_in-InChunk after_quote t offset byte = ground arith
step_in-InChunk (quoted o) t offset byte = ground arith

widen :
    (lo hi lo' hi' : ℕ) (is : List QuoteIssue)
    → lo' ≤ lo
    → hi ≤ hi'
    → All (InChunk lo hi) is
    → All (InChunk lo' hi') is
widen lo hi lo' hi' [] p q h = tt
widen lo hi lo' hi' (i ∷ is) p q h = (omega arith, widen lo hi lo' hi' is p q h.1)

-- Every issue is reported at the offset of a byte of the chunk that was fed.
consume-InChunk :
    (t : QuoteTracker) (bytes : Bytes) (base : ℕ)
    → All (InChunk base (base + length bytes)) (consume t bytes base).1
unfolding consume
consume-InChunk t [] base = tt
consume-InChunk t (b ∷ bs) base =
    let (t', issues) = step t base b in
    All-append _ issues _
      (widen base (base + 1) base (base + length (b ∷ bs)) issues (omega arith) (omega arith)
        (step_in-InChunk t.state t base b))
      (widen (base + 1) (base + 1 + length bs) base (base + length (b ∷ bs)) _ (omega arith)
        (omega arith) (consume-InChunk t' bs (base + 1)))
