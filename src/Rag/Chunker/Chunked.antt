-- ===== src/Rag/Chunker/Chunked.antt =====
-- What the chunks of a document are (src/thumbelina/rag/ingestion/chunker.py).
use thumbelina.Prelude.{
  ℕ, suc, ◌+◌, ◌≤◌, ◌<◌, Bool, true, List, [], ◌∷◌, ◌++◌, map, length, ◌≡◌, refl, sym, ap, ◌∙◌,
  arith,
}
use mathlib.Core.Path.{subst}
use thumbelina.Rag.Texts.{Text, slice}
use thumbelina.Rag.Chunker.{
  Span, Document, Chunk, build_chunk, build_chunks, fixed_spans, fixed_chunk, split, merge, chunk,
}
use thumbelina.Rag.Chunker.Positions.{slice-At}
use thumbelina.Rag.Chunker.Pieces.{split-EachAt}
use thumbelina.Rag.Chunker.Slices.{EachSpan, SpanAt, merge-SpanAt}
use thumbelina.Rag.Chunker.Covers.{is_visible, is_visible-below, split-InPieces}
use thumbelina.Rag.Chunker.Fixed.{fixed_spans-SpanAt, fixed_spans-length, fixed_spans-InSpans}
use thumbelina.Rag.Chunker.Kept.{InSpans, merge-InSpans}
use thumbelina.Rag.Chunker.Sizes.{split-EachFits, merge-Fits}

-- what holds of each chunk with its place in the list
unfoldable pub EachChunk : (ℕ → Chunk → Type 0) → ℕ → List Chunk → Type 0
EachChunk P n [] = Unit
EachChunk P n (c ∷ cs) = P n c × EachChunk P (suc n) cs

-- a chunk with the text between its offsets, which lie in the document's text, and its number
abbrev pub IsSlice : Document → ℕ → Chunk → Type 0
IsSlice document n c =
    (c.span.text ≡ slice c.span.start c.span.end document.content)
    × (c.span.end ≡ c.span.start + c.length)
    × (c.span.end ≤ length document.content)
    × (c.chunk_index ≡ n)

build_chunks-IsSlice :
    (document : Document) (n : ℕ) (bs : List Span)
    → EachSpan (SpanAt document.content) bs
    → EachChunk (IsSlice document) n (build_chunks document n bs)
unfolding EachSpan SpanAt EachChunk build_chunks build_chunk
build_chunks-IsSlice document n [] h = tt
build_chunks-IsSlice document n (b ∷ bs) h = (
  (
    sym (slice-At document.content b.start b.text h.0.0)
        ∙ ap (λ e. slice b.start e document.content) (sym h.0.1),
    h.0.1,
    omega (arith, h.0.0.inside, h.0.1),
    refl,
  ),
  build_chunks-IsSlice document (suc n) bs h.1,
)

abbrev pub spans : List Chunk → List Span
spans cs = map (λ (c : Chunk). c.span) cs

build_chunks-spans :
    (document : Document) (n : ℕ) (bs : List Span) → spans (build_chunks document n bs) ≡ bs
unfolding build_chunks build_chunk
build_chunks-spans document n [] = refl
build_chunks-spans document n (b ∷ bs) = ap (◌∷◌ b) (build_chunks-spans document (suc n) bs)

build_chunks-Each :
    (P : Span → Type 0) (document : Document) (n : ℕ) (bs : List Span)
    → EachSpan P bs
    → EachChunk (λ m c. P c.span) n (build_chunks document n bs)
unfolding EachSpan EachChunk build_chunks build_chunk
build_chunks-Each P document n [] h = tt
build_chunks-Each P document n (b ∷ bs) h = (h.0, build_chunks-Each P document (suc n) bs h.1)

module _ (is_space : ℕ → Bool) (length_of : Text → ℕ) (max_size fixed_size fixed_overlap : ℕ) where
  -- Whatever the separators, the length function, the sizes and the overlaps are, for the recursive
  -- chunker and for the one of fixed size: the text of each chunk is the slice of the document's text
  -- between the chunk's two offsets, its length is the distance of these, they lie in the text, and
  -- the chunks are numbered in their order from 0.
  pub chunk-IsSlice :
      (separators : List Text) (overlap : ℕ) (document : Document)
      → EachChunk
          (IsSlice document)
          0
          (chunk is_space length_of max_size separators overlap document)
        × EachChunk (IsSlice document) 0 (fixed_chunk fixed_size fixed_overlap document)
  unfolding chunk fixed_chunk
  chunk-IsSlice separators overlap document =
      let text = document.content in
      let ps = split is_space length_of max_size separators text in
      (
        build_chunks-IsSlice document 0 (merge is_space length_of max_size overlap ps) (
            merge-SpanAt is_space length_of max_size overlap text ps
              (split-EachAt is_space length_of max_size separators text)),
        build_chunks-IsSlice document 0 (fixed_spans (length text) fixed_size fixed_overlap 0 text)
            (fixed_spans-SpanAt (length text) fixed_size fixed_overlap 0 text),
      )

  -- Where the size of the recursive chunker is not 0, and the overlap of the one of fixed size is
  -- below its size: each position of the document's text at which a character other than white space
  -- stands is in the range of one of the chunks, of either chunker.
  pub chunk-InSpans :
      (separators : List Text) (overlap : ℕ) (document : Document) (i : ℕ)
      → 1 ≤ max_size
      → fixed_overlap < fixed_size
      → is_visible is_space document.content i ≡ true
      → InSpans i (spans (chunk is_space length_of max_size separators overlap document))
        × InSpans i (spans (fixed_chunk fixed_size fixed_overlap document))
  unfolding chunk fixed_chunk
  chunk-InSpans separators overlap document i m o v =
      let text = document.content in
      let ps = split is_space length_of max_size separators text in
      let bs = merge is_space length_of max_size overlap ps in
      let cs = fixed_spans (length text) fixed_size fixed_overlap 0 text in
      (
        subst (InSpans i) (sym (build_chunks-spans document 0 bs)) (
            merge-InSpans is_space length_of max_size overlap text i ps
              (split-EachAt is_space length_of max_size separators text)
              (split-InPieces is_space length_of max_size m separators text i v)),
        subst (InSpans i) (sym (build_chunks-spans document 0 cs)) (
            fixed_spans-InSpans (length text) fixed_size fixed_overlap 0 text i o (omega arith)
              (is_visible-below is_space text i v) (omega arith)),
      )

  -- No chunk of the chunker of fixed size has more characters than its size; and where the length
  -- function adds up over texts put together and is at most the number of characters, as the default
  -- one does, no chunk of the recursive chunker is longer than its size.
  pub chunk-length_of :
      (separators : List Text) (overlap : ℕ) (document : Document)
      → ((t : Text) → length_of t ≤ length t)
      → ((t u : Text) → length_of (t ++ u) ≡ length_of t + length_of u)
      → EachChunk
          (λ n c. length_of c.span.text ≤ max_size)
          0
          (chunk is_space length_of max_size separators overlap document)
        × EachChunk
            (λ n c. length c.span.text ≤ fixed_size)
            0
            (fixed_chunk fixed_size fixed_overlap document)
  unfolding chunk fixed_chunk
  chunk-length_of separators overlap document at_most additive =
      let text = document.content in
      let ps = split is_space length_of max_size separators text in
      (
        build_chunks-Each (λ b. length_of b.text ≤ max_size) document 0
            (merge is_space length_of max_size overlap ps)
            (merge-Fits is_space length_of max_size at_most overlap additive ps
              (split-EachFits is_space length_of max_size at_most separators text)),
        build_chunks-Each (λ b. length b.text ≤ fixed_size) document 0
            (fixed_spans (length text) fixed_size fixed_overlap 0 text)
            (fixed_spans-length (length text) fixed_size fixed_overlap 0 text),
      )
