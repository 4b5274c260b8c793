-- ===== src/Rag/Chunker/Fixed.antt =====
-- The blocks of the chunker of fixed size (src/thumbelina/rag/ingestion/chunker.py).
use thumbelina.Prelude.{
  ℕ, zero, suc, ◌+◌, ◌-◌, ◌≤◌, ◌<◌, drop, length, ltb, leb, if◌then◌else◌, if_known, refl, arith,
  Bool-cases, inl, inr,
}
use thumbelina.Rag.Texts.{Text, slice}
use thumbelina.Rag.Chunker.{fixed_spans}
use thumbelina.Rag.Chunker.Positions.{length-take, length-drop}
use thumbelina.Rag.Chunker.Cuts.{At-take}
use thumbelina.Rag.Chunker.Slices.{SpanAt, EachSpan}
use thumbelina.Rag.Chunker.Kept.{InSpans}

-- the end of a block
abbrev end_of : ℕ → ℕ → Text → ℕ
end_of chunk_size start text =
    if leb (start + chunk_size) (length text) then start + chunk_size else length text

end_of-bounds :
    (chunk_size start : ℕ) (text : Text)
    → start < length text
    → (start ≤ end_of chunk_size start text)
      × (end_of chunk_size start text ≤ length text)
      × (end_of chunk_size start text ≤ start + chunk_size)
end_of-bounds chunk_size start text h = (ground (arith, h), ground (arith, h), ground (arith, h))

slice-SpanAt :
    (text : Text) (start end : ℕ)
    → start ≤ end
    → end ≤ length text
    → SpanAt text (record { text = slice start end text; start = start; end = end })
unfolding SpanAt
slice-SpanAt text start end h k =
    let rest = drop start text in
    let l = length-drop start text in
    (
      At-take text start (end - start) rest refl (omega (arith, h, k, l)) (omega (arith, h, k, l)),
      omega (arith, h, length-take (end - start) rest (omega (arith, h, k, l))),
    )

pub fixed_spans-SpanAt :
    (fuel chunk_size overlap start : ℕ) (text : Text)
    → EachSpan (SpanAt text) (fixed_spans fuel chunk_size overlap start text)
unfolding fixed_spans EachSpan
fixed_spans-SpanAt zero chunk_size overlap start text = tt
fixed_spans-SpanAt (suc fuel) chunk_size overlap start text =
    if_known (EachSpan (SpanAt text)) (ltb start (length text))
      (λ more.
        let (h, k, l) = end_of-bounds chunk_size start text (ground (arith, more)) in
        (
          slice-SpanAt text start (end_of chunk_size start text) h k,
          fixed_spans-SpanAt fuel chunk_size overlap (start + chunk_size - overlap) text,
        ))
      (λ over. tt)

pub fixed_spans-length :
    (fuel chunk_size overlap start : ℕ) (text : Text)
    → EachSpan (λ b. length b.text ≤ chunk_size) (fixed_spans fuel chunk_size overlap start text)
unfolding fixed_spans EachSpan
fixed_spans-length zero chunk_size overlap start text = tt
fixed_spans-length (suc fuel) chunk_size overlap start text =
    if_known (EachSpan (λ b. length b.text ≤ chunk_size)) (ltb start (length text))
      (λ more.
        let (h, k, l) = end_of-bounds chunk_size start text (ground (arith, more)) in
        let end = end_of chunk_size start text in
        (
          omega (
            arith,
            h,
            k,
            l,
            length-drop start text,
            length-take (end - start) (drop start text)
                (omega (arith, h, k, length-drop start text)),
          ),
          fixed_spans-length fuel chunk_size overlap (start + chunk_size - overlap) text,
        ))
      (λ over. tt)

pub fixed_spans-InSpans :
    (fuel chunk_size overlap start : ℕ) (text : Text) (i : ℕ)
    → overlap < chunk_size
    → start ≤ i
    → i < length text
    → length text ≤ start + fuel
    → InSpans i (fixed_spans fuel chunk_size overlap start text)
unfolding fixed_spans InSpans
fixed_spans-InSpans zero chunk_size overlap start text i h k l f = absurd (omega (arith, k, l, f))
fixed_spans-InSpans (suc fuel) chunk_size overlap start text i h k l f =
    if_known (InSpans i) (ltb start (length text))
      (λ more. elim (Bool-cases (ltb i (end_of chunk_size start text))) [
        | inl here ↦ inl (k, ground (arith, here))
        | inr later ↦ inr (
            fixed_spans-InSpans fuel chunk_size overlap (start + chunk_size - overlap) text i h
              (ground (arith, later, l, h)) l (omega (arith, f, h)))
      ])
      (λ over. ground (arith, over, k, l))
