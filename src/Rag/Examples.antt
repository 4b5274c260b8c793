-- ===== src/Rag/Examples.antt =====
-- A text of two paragraphs in blocks of at most four characters
-- (src/thumbelina/rag/ingestion/chunker.py).
use thumbelina.Prelude.{
  ℕ, Bool, none, List, [], ◌∷◌, ◌≤◌, length, length-append, leb, ◌≡◌, refl, arith,
}
use thumbelina.Rag.Texts.{Text}
use thumbelina.Rag.Chunker.{Document, chunk, fixed_chunk, with_fallback}
use thumbelina.Rag.Chunker.Chunked.{
  EachChunk, IsSlice, spans, chunk-IsSlice, chunk-InSpans, chunk-length_of,
}
use thumbelina.Rag.Chunker.Covers.{is_visible}
use thumbelina.Rag.Chunker.Kept.{InSpans}

abbrev document : Document
document = record {
  id = "d";
  content = 97 ∷ 98 ∷ 10 ∷ 10 ∷ 99 ∷ 100 ∷ 32 ∷ 101 ∷ [];
  layout = none;
  knowledge_base_id = "0";
}

abbrev is_space : ℕ → Bool
is_space c = leb c 32

abbrev count : Text → ℕ
count t = length t

abbrev separators : List Text
separators = (10 ∷ 10 ∷ []) ∷ (32 ∷ []) ∷ []

separators_kept : with_fallback separators ≡ (10 ∷ 10 ∷ []) ∷ (32 ∷ []) ∷ [] ∷ []
unfolding with_fallback
separators_kept = refl

chunk-IsSlice_example :
    EachChunk (IsSlice document) 0 (chunk is_space count 4 (with_fallback separators) 1 document)
    × EachChunk (IsSlice document) 0 (fixed_chunk 3 1 document)
chunk-IsSlice_example = chunk-IsSlice is_space count 4 3 1 (with_fallback separators) 1 document

chunk-InSpans_example :
    InSpans 4 (spans (chunk is_space count 4 (with_fallback separators) 1 document))
    × InSpans 4 (spans (fixed_chunk 3 1 document))
unfolding is_visible
chunk-InSpans_example =
    chunk-InSpans is_space count 4 3 1 (with_fallback separators) 1 document 4 (omega arith)
      (omega arith) refl

chunk-length_of_example :
    EachChunk
      (λ n c. count c.span.text ≤ 4)
      0
      (chunk is_space count 4 (with_fallback separators) 1 document)
    × EachChunk (λ n c. length c.span.text ≤ 3) 0 (fixed_chunk 3 1 document)
chunk-length_of_example =
    chunk-length_of is_space count 4 3 1 (with_fallback separators) 1 document (λ t. omega arith)
      length-append
