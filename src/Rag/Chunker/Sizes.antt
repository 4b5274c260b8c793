-- ===== src/Rag/Chunker/Sizes.antt =====
-- The blocks keep to the size (src/thumbelina/rag/ingestion/chunker.py).
use thumbelina.Prelude.{
  ℕ, zero, suc, ◌+◌, ◌≤◌, Bool, false, not, ◌&&◌, ◌||◌, List, [], ◌∷◌, ◌++◌, take, drop, length,
  ltb, leb, ◌==◌, if◌then◌else◌, if_both, if_known, ◌≡◌, arith,
}
use thumbelina.Rag.Texts.{Text, is_empty, join, is_blank}
use thumbelina.Rag.Chunker.{
  Piece, Span, MergeState, blocks, shift, split_by, split_parts, is_chosen, split, finish, reversed,
  add_piece, overlap_of, merge_end, merge_piece, merge_pieces, merge,
}
use thumbelina.Rag.Chunker.Slices.{EachSpan, EachSpan-append, texts}

take_at_most : (n : ℕ) (t : Text) → length (take n t) ≤ n
take_at_most zero t = omega arith
take_at_most (suc n) [] = omega arith
take_at_most (suc n) (c ∷ t) = omega (arith, take_at_most n t)

module _ (is_space : ℕ → Bool) (length_of : Text → ℕ) (max_size : ℕ)
    (at_most : (t : Text) → length_of t ≤ length t) where
  unfoldable pub EachFits : List Piece → Type 0
  EachFits [] = Unit
  EachFits ((p, o) ∷ ps) = (length_of p ≤ max_size) × EachFits ps

  EachFits-append : (ps qs : List Piece) → EachFits ps → EachFits qs → EachFits (ps ++ qs)
  unfolding EachFits
  EachFits-append [] qs h k = k
  EachFits-append (p ∷ ps) qs h k = (h.0, EachFits-append ps qs h.1 k)

  shift-EachFits : (o : ℕ) (ps : List Piece) → EachFits ps → EachFits (shift o ps)
  unfolding EachFits
  shift-EachFits o [] h = tt
  shift-EachFits o (p ∷ ps) h = (h.0, shift-EachFits o ps h.1)

  blocks-EachFits : (fuel i : ℕ) (text : Text) → EachFits (blocks fuel max_size i text)
  unfolding EachFits blocks
  blocks-EachFits zero i text = tt
  blocks-EachFits (suc fuel) i text = if_both EachFits (is_empty text) tt (
    omega (arith, at_most (take max_size text), take_at_most max_size text),
    blocks-EachFits fuel (i + max_size) (drop max_size text),
  )

  split_parts-EachFits :
      (smaller : Text → List Piece)
      → ((t : Text) → EachFits (smaller t))
      → (parts : List Piece) → EachFits (split_parts is_space length_of max_size smaller parts)
  unfolding EachFits split_parts
  split_parts-EachFits smaller h [] = tt
  split_parts-EachFits smaller h ((part, o) ∷ parts) =
      let rest = split_parts-EachFits smaller h parts in
      if_both EachFits (is_blank is_space part) rest (
        if_known EachFits (leb (length_of part) max_size) (λ fits. (ground (arith, fits), rest))
          (λ large.
            EachFits-append (shift o (smaller part))
              (split_parts is_space length_of max_size smaller parts)
              (shift-EachFits o (smaller part) (h part)) rest))

  pub split-EachFits :
      (separators : List Text) (text : Text)
      → EachFits (split is_space length_of max_size separators text)
  unfolding EachFits split
  split-EachFits [] text = if_both EachFits (is_empty text) tt (
      if_known EachFits (leb (length_of text) max_size) (λ fits. (ground (arith, fits), tt))
        (λ large. blocks-EachFits (length text) 0 text))
  split-EachFits (separator ∷ remaining) text = if_both EachFits (is_empty text) tt (
      if_known EachFits (leb (length_of text) max_size) (λ fits. (ground (arith, fits), tt))
        (λ large.
          if_both EachFits (is_chosen text separator remaining)
            (split_parts-EachFits (split is_space length_of max_size remaining)
              (split-EachFits remaining) (split_by text separator))
            (split-EachFits remaining text)))

  module _ (overlap : ℕ)
      (additive : (t u : Text) → length_of (t ++ u) ≡ length_of t + length_of u) where
    abbrev size_of : List Piece → ℕ
    size_of [] = 0
    size_of (p ∷ ps) = length_of p.0 + size_of ps

    size_of-append : (ps qs : List Piece) → size_of (ps ++ qs) ≡ size_of ps + size_of qs
    size_of-append [] qs = omega arith
    size_of-append (p ∷ ps) qs = omega (arith, size_of-append ps qs)

    length_of-join : (ps : List Piece) → length_of (join (texts ps)) ≡ size_of ps
    unfolding join
    length_of-join [] = omega (arith, at_most [])
    length_of-join (p ∷ ps) = omega (arith, additive p.0 (join (texts ps)), length_of-join ps)

    -- what is kept has room for the next piece
    overlap_of-size_of :
        (part_len : ℕ) (rs taken : List Piece) (n : ℕ)
        → n ≡ size_of taken
        → n + part_len ≤ max_size
        → let kept = overlap_of is_space length_of max_size overlap part_len rs taken n in
          (kept.1 ≡ size_of kept.0) × (kept.1 + part_len ≤ max_size)
    unfolding overlap_of
    overlap_of-size_of part_len [] taken n h k = (h, k)
    overlap_of-size_of part_len (r ∷ rs) taken n h k =
        if_known
          (λ (kept : List Piece × ℕ). (kept.1 ≡ size_of kept.0) × (kept.1 + part_len ≤ max_size))
          (ltb overlap (n + length_of r.0) || ltb max_size (n + length_of r.0 + part_len))
          (λ stop. (h, k))
          (λ go.
            overlap_of-size_of part_len rs (r ∷ taken) (n + length_of r.0) (omega (arith, h))
              (ground (arith, go)))

    abbrev Fits : Span → Type 0
    Fits b = length_of b.text ≤ max_size

    record IsSized (s : MergeState) : Type 0 where
      done : EachSpan Fits s.chunks
      counted : s.current_len ≡ size_of s.current
      room : s.current_len ≤ max_size

    finish-Fits : (ps : List Piece) → size_of ps ≤ max_size → Fits (finish ps)
    unfolding finish
    finish-Fits [] h = omega (arith, at_most [])
    finish-Fits (p ∷ ps) h = omega (arith, h, length_of-join (p ∷ ps))

    flushed-Fits : (s : MergeState) → IsSized s → EachSpan Fits (s.chunks ++ finish s.current ∷ [])
    unfolding EachSpan
    flushed-Fits s k =
        EachSpan-append Fits s.chunks (finish s.current ∷ []) k.done
          (finish-Fits s.current (omega (arith, k.counted, k.room)), tt)

    add_piece-IsSized :
        (p : Piece) (chunks : List Span) (kept : List Piece × ℕ)
        → EachSpan Fits chunks
        → (kept.1 ≡ size_of kept.0) × (kept.1 + length_of p.0 ≤ max_size)
        → IsSized (add_piece p (length_of p.0) chunks kept)
    add_piece-IsSized p chunks kept d h = record {
      done = d;
      counted = omega (arith, h.0, size_of-append kept.0 (p ∷ []));
      room = h.1;
    }

    room_left :
        (ps : List Piece) (n m : ℕ) (apart : Bool)
        → n ≡ size_of ps
        → m ≤ max_size
        → (not (is_empty ps) && (ltb max_size (n + m) || apart)) ≡ false
        → n + m ≤ max_size
    room_left [] n m apart h k e = omega (arith, h, k)
    room_left (p ∷ ps) n m apart h k e = ground (arith, e)

    merge_piece-IsSized :
        (p : Piece) (s : MergeState)
        → length_of p.0 ≤ max_size
        → IsSized s
        → IsSized (merge_piece is_space length_of max_size overlap p s)
    unfolding merge_piece
    merge_piece-IsSized p s h k =
        let n = length_of p.0 in
        let contiguous : Bool = is_empty s.current || (p.1 == s.current_end) in
        let overlap_pieces =
          overlap_of is_space length_of max_size overlap n (reversed s.current) [] 0 in
        if_known IsSized
          (not (is_empty s.current) && (ltb max_size (s.current_len + n) || not contiguous))
          (λ full.
            add_piece-IsSized p (s.chunks ++ finish s.current ∷ [])
              (if contiguous then overlap_pieces else ([], 0)) (flushed-Fits s k)
              (if_both
                (λ (kept : List Piece × ℕ). (kept.1 ≡ size_of kept.0) × (kept.1 + n ≤ max_size))
                contiguous
                (overlap_of-size_of n (reversed s.current) [] 0 (omega arith) (omega (arith, h)))
                (omega arith, omega (arith, h))))
          (λ room.
            add_piece-IsSized p s.chunks (s.current, s.current_len) k.done
              (k.counted, room_left s.current s.current_len n (not contiguous) k.counted h room))

    merge_pieces-IsSized :
        (ps : List Piece) (s : MergeState)
        → EachFits ps
        → IsSized s
        → IsSized (merge_pieces is_space length_of max_size overlap ps s)
    unfolding merge_pieces EachFits
    merge_pieces-IsSized [] s h k = k
    merge_pieces-IsSized (p ∷ ps) s h k =
        merge_pieces-IsSized ps (merge_piece is_space length_of max_size overlap p s) h.1
          (merge_piece-IsSized p s h.0 k)

    pub merge-Fits :
        (ps : List Piece)
        → EachFits ps
        → EachSpan Fits (merge is_space length_of max_size overlap ps)
    unfolding merge merge_end EachSpan
    merge-Fits ps h =
        let start : MergeState = record {
          chunks = [];
          current = [];
          current_len = 0;
          current_end = 0;
        } in
        let s = merge_pieces is_space length_of max_size overlap ps start in
        let k =
          merge_pieces-IsSized ps start h
            record { done = tt; counted = omega arith; room = omega arith } in
        if_both (EachSpan Fits) (is_empty s.current) k.done (flushed-Fits s k)
