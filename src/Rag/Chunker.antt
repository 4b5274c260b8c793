-- ===== src/Rag/Chunker.antt =====
-- The chunkers (src/thumbelina/rag/ingestion/chunker.py, with `page_range_for` of
-- src/thumbelina/rag/common/models.py). Texts are lists of code points; which of them are white space
-- is a parameter. A chunk's new id is left out, and of its metadata the fields that the chunker
-- itself computes are kept.
pub mod Positions
pub mod Cuts
pub mod Pieces
pub mod Slices
pub mod Covers
pub mod Kept
pub mod Sizes
pub mod Fixed
pub mod Chunked
use thumbelina.Prelude.{
  ℕ, zero, suc, ◌+◌, ◌-◌, ◌/◌, String, Bool, true, false, not, ◌&&◌, ◌||◌, Option, none, some, List,
  [], ◌∷◌, ◌++◌, map, take, drop, length, keep, ltb, leb, is_some, ◌==◌, if◌then◌else◌,
}
use thumbelina.Rag.Texts.{Text, is_empty, slice, find, join, is_blank}

-- a piece of a text with its offset
abbrev pub Piece : Type 0
Piece = Text × ℕ

-- a text from its start to its end in the document
pub record Span : Type 0 where
  pub text : Text
  pub start : ℕ
  pub end : ℕ

pub record PageSpan : Type 0 where
  pub page : ℕ
  pub start : ℕ
  pub end : ℕ

pub record Document : Type 0 where
  pub id : String
  pub content : Text
  pub layout : Option (List PageSpan)
  pub knowledge_base_id : String

-- `chunk_index`, and the pages if the layout knows them
pub record Chunk : Type 0 where
  pub document_id : String
  pub span : Span
  pub length : ℕ
  pub chunk_index : ℕ
  pub pages : Option (ℕ × ℕ)
  pub knowledge_base_id : String

abbrev last_page : ℕ → List PageSpan → ℕ
last_page page [] = page
last_page page (s ∷ ss) = last_page s.page ss

abbrev first_and_last : List PageSpan → Option (ℕ × ℕ)
first_and_last [] = none
first_and_last (s ∷ ss) = some (s.page, last_page s.page ss)

unfoldable pub page_range_for : ℕ → ℕ → List PageSpan → Option (ℕ × ℕ)
page_range_for start end spans =
    first_and_last (keep (λ (s : PageSpan). ltb s.start end && ltb start s.end) spans)

-- The separators that a chunker keeps: the last is the empty one.
abbrev pub last_text : Text → List Text → Text
last_text t [] = t
last_text t (u ∷ us) = last_text u us

unfoldable pub with_fallback : List Text → List Text
with_fallback [] = [] ∷ []
with_fallback (t ∷ ts) = if is_empty (last_text t ts) then t ∷ ts else t ∷ ts ++ [] ∷ []

unfoldable pub page_metadata : Option (List PageSpan) → ℕ → ℕ → Option (ℕ × ℕ)
page_metadata none start end = none
page_metadata (some spans) start end = page_range_for start end spans

unfoldable pub build_chunk : Document → Span → ℕ → Chunk
build_chunk document span index = record {
  document_id = document.id;
  span = span;
  length = length span.text;
  chunk_index = index;
  pages = page_metadata document.layout span.start span.end;
  knowledge_base_id = document.knowledge_base_id;
}

-- `enumerate` with `_build_chunk`
unfoldable pub build_chunks : Document → ℕ → List Span → List Chunk
build_chunks document index [] = []
build_chunks document index (s ∷ ss) =
    build_chunk document s index ∷ build_chunks document (suc index) ss

-- The loop of `FixedSizeChunker.chunk` from `start`; the fuel bounds its rounds.
unfoldable pub fixed_spans : ℕ → ℕ → ℕ → ℕ → Text → List Span
fixed_spans zero chunk_size overlap start text = []
fixed_spans (suc fuel) chunk_size overlap start text =
    let rest = fixed_spans fuel chunk_size overlap (start + chunk_size - overlap) text in
    let end = if leb (start + chunk_size) (length text) then start + chunk_size else length text in
    if ltb start (length text)
    then record { text = slice start end text; start = start; end = end } ∷ rest
    else []

-- `FixedSizeChunker.chunk`
unfoldable pub fixed_chunk : ℕ → ℕ → Document → List Chunk
fixed_chunk chunk_size overlap document =
    build_chunks document 0
      (fixed_spans (length document.content) chunk_size overlap 0 document.content)

-- `[(ch, i) for i, ch in enumerate(text)]`
unfoldable pub characters : ℕ → Text → List Piece
characters i [] = []
characters i (c ∷ text) = (c ∷ [], i) ∷ characters (suc i) text

-- A round of the loop of `_split_by` from `start`, on the text that is left, with what `find` gives.
unfoldable pub cut_found : (ℕ → Text → List Piece) → Text → ℕ → Text → Option ℕ → List Piece
cut_found next separator start text none = if is_empty text then [] else (text, start) ∷ []
cut_found next separator start text (some idx) =
    let end = idx + length separator in (take end text, start) ∷ next (start + end) (drop end text)

-- the loop; the fuel bounds its rounds
unfoldable pub cut_at : ℕ → Text → ℕ → Text → List Piece
cut_at zero separator start text = []
cut_at (suc fuel) separator start text =
    cut_found (cut_at fuel separator) separator start text (find separator text)

unfoldable pub split_by : Text → Text → List Piece
split_by text [] = characters 0 text
split_by text (c ∷ separator) = cut_at (suc (length text)) (c ∷ separator) 0 text

-- `[(text[i : i + size], i) for i in range(0, len(text), size)]`
unfoldable pub blocks : ℕ → ℕ → ℕ → Text → List Piece
blocks zero size i text = []
blocks (suc fuel) size i text =
    if is_empty text then [] else (take size text, i) ∷ blocks fuel size (i + size) (drop size text)

abbrev pub shift : ℕ → List Piece → List Piece
shift offset ps = map (λ (p : Piece). (p.0, offset + p.1)) ps

-- the separator is the one of the level: the first that occurs, or the last
unfoldable pub is_chosen : Text → Text → List Text → Bool
is_chosen text separator remaining =
    is_empty separator || is_some (find separator text) || is_empty remaining

-- `chunks`, `current`, `current_len` and `current_end`
pub record MergeState : Type 0 where
  pub chunks : List Span
  pub current : List Piece
  pub current_len : ℕ
  pub current_end : ℕ

abbrev pub last_end : Piece → List Piece → ℕ
last_end p [] = p.1 + length p.0
last_end p (q ∷ qs) = last_end q qs

-- `_finish`, which is called on pieces only
unfoldable pub finish : List Piece → Span
finish [] = record { text = []; start = 0; end = 0 }
finish (p ∷ ps) = record {
  text = join (map (λ (q : Piece). q.0) (p ∷ ps));
  start = p.1;
  end = last_end p ps;
}

unfoldable pub reversed : List Piece → List Piece
reversed [] = []
reversed (p ∷ ps) = reversed ps ++ p ∷ []

abbrev pub add_piece : Piece → ℕ → List Span → List Piece × ℕ → MergeState
add_piece p part_len chunks kept = record {
  chunks = chunks;
  current = kept.0 ++ p ∷ [];
  current_len = kept.1 + part_len;
  current_end = p.1 + length p.0;
}

-- the last block
unfoldable pub merge_end : MergeState → List Span
merge_end s = if is_empty s.current then s.chunks else s.chunks ++ finish s.current ∷ []

-- A chunker with what it is set to; `length_of` is `length_function`.
module _ (is_space : ℕ → Bool) (length_of : Text → ℕ) (max_size : ℕ) where
  -- the parts of a level, with `smaller` for those that are too long
  unfoldable pub split_parts : (Text → List Piece) → List Piece → List Piece
  split_parts smaller [] = []
  split_parts smaller ((part, offset) ∷ parts) =
      let rest = split_parts smaller parts in
      if is_blank is_space part
      then rest
      else if leb (length_of part) max_size
      then (part, offset) ∷ rest
      else shift offset (smaller part) ++ rest

  -- `_split`. A separator that is not chosen leaves the text to those that follow it.
  unfoldable pub split : List Text → Text → List Piece
  split [] text =
      if is_empty text
      then []
      else if leb (length_of text) max_size
      then (text, 0) ∷ []
      else blocks (length text) max_size 0 text
  split (separator ∷ remaining) text =
      let later = split remaining text in
      if is_empty text
      then []
      else if leb (length_of text) max_size
      then (text, 0) ∷ []
      else if is_chosen text separator remaining
      then split_parts (split remaining) (split_by text separator)
      else later

  -- the loop for the overlap, on the pieces in reverse
  unfoldable pub overlap_of : ℕ → ℕ → List Piece → List Piece → ℕ → List Piece × ℕ
  overlap_of overlap part_len [] taken taken_len = (taken, taken_len)
  overlap_of overlap part_len (prev ∷ prevs) taken taken_len =
      let prev_len = length_of prev.0 in
      let rest = overlap_of overlap part_len prevs (prev ∷ taken) (taken_len + prev_len) in
      if ltb overlap (taken_len + prev_len) || ltb max_size (taken_len + prev_len + part_len)
      then (taken, taken_len)
      else rest

  -- a piece of the loop of `_merge`
  unfoldable pub merge_piece : ℕ → Piece → MergeState → MergeState
  merge_piece overlap p s =
      let part_len = length_of p.0 in
      let contiguous = is_empty s.current || (p.1 == s.current_end) in
      let kept =
        if contiguous then overlap_of overlap part_len (reversed s.current) [] 0 else ([], 0) in
      if not (is_empty s.current) && (ltb max_size (s.current_len + part_len) || not contiguous)
      then add_piece p part_len (s.chunks ++ finish s.current ∷ []) kept
      else add_piece p part_len s.chunks (s.current, s.current_len)

  unfoldable pub merge_pieces : ℕ → List Piece → MergeState → MergeState
  merge_pieces overlap [] s = s
  merge_pieces overlap (p ∷ ps) s = merge_pieces overlap ps (merge_piece overlap p s)

  unfoldable pub merge : ℕ → List Piece → List Span
  merge overlap ps = merge_end (
      merge_pieces overlap ps
        record { chunks = []; current = []; current_len = 0; current_end = 0 })

  -- `chunk`, with the separators and the overlap
  unfoldable pub chunk : List Text → ℕ → Document → List Chunk
  chunk separators overlap document =
      build_chunks document 0 (merge overlap (split separators document.content))
