-- ===== src/Rag/Chunker/Kept.antt =====
-- Merging keeps every piece in a block (src/thumbelina/rag/ingestion/chunker.py).
use thumbelina.Prelude.{
  ℕ, ◌+◌, ◌≤◌, ◌<◌, Bool, true, not, ◌&&◌, ◌||◌, ◌⊎◌, List, [], ◌∷◌, ◌++◌, length, ltb, ◌==◌,
  if◌then◌else◌, if_both, if_known, ◌≡◌, refl, arith, inl, inr,
}
use thumbelina.Rag.Texts.{Text, is_empty}
use thumbelina.Rag.Chunker.{
  Piece, Span, MergeState, finish, reversed, overlap_of, merge_end, merge_piece, merge_pieces,
  merge,
}
use thumbelina.Rag.Chunker.Positions.{Run, EachAt}
use thumbelina.Rag.Chunker.Slices.{
  EachSpan, finish-SpanAt, MergeAt, merge_piece-MergeAt, merge_pieces-MergeAt,
}
use thumbelina.Rag.Chunker.Covers.{InPieces, InPieces-left, InPieces-right}

-- a position that is in one of the blocks
unfoldable pub InSpans : ℕ → List Span → Type 0
InSpans i [] = ⊥
InSpans i (b ∷ bs) = ((b.start ≤ i) × (i < b.end)) ⊎ InSpans i bs

InSpans-left : (i : ℕ) (bs cs : List Span) → InSpans i bs → InSpans i (bs ++ cs)
unfolding InSpans
InSpans-left i [] cs h = absurd h
InSpans-left i (b ∷ bs) cs (inl h) = inl h
InSpans-left i (b ∷ bs) cs (inr h) = inr (InSpans-left i bs cs h)

InSpans-right : (i : ℕ) (bs cs : List Span) → InSpans i cs → InSpans i (bs ++ cs)
unfolding InSpans
InSpans-right i [] cs h = h
InSpans-right i (b ∷ bs) cs h = inr (InSpans-right i bs cs h)

Run-le : (text : Text) (a e : ℕ) (ps : List Piece) → Run text a ps e → a ≤ e
unfolding Run
Run-le text a e [] r = omega (arith, r)
Run-le text a e ((p, o) ∷ ps) r = omega (arith, Run-le text (a + length p) e ps r.2)

-- the pieces of a run lie between its ends
InPieces-Run :
    (text : Text) (i a e : ℕ) (ps : List Piece)
    → Run text a ps e
    → InPieces i ps
    → (a ≤ i) × (i < e)
unfolding Run InPieces
InPieces-Run text i a e [] r h = absurd h
InPieces-Run text i a e ((p, o) ∷ ps) r (inl h) =
    let l = Run-le text (a + length p) e ps r.2 in
    (omega (arith, h.0, r.0), omega (arith, h.1, l, r.0))
InPieces-Run text i a e ((p, o) ∷ ps) r (inr h) =
    let (l, m) = InPieces-Run text i (a + length p) e ps r.2 h in (omega (arith, l), m)

-- a finished block has the positions of its pieces
finish-InSpans :
    (text : Text) (i a e : ℕ) (ps : List Piece)
    → Run text a ps e
    → InPieces i ps
    → InSpans i (finish ps ∷ [])
unfolding InSpans finish Run InPieces
finish-InSpans text i a e [] r h = absurd h
finish-InSpans text i a e ((p, o) ∷ ps) r h =
    let (l, m) = InPieces-Run text i a e ((p, o) ∷ ps) r h in
    let last = (finish-SpanAt text a (p, o) ps e r).1 in
    inl (omega (arith, l, r.0), omega (arith, m, last))

module _ (is_space : ℕ → Bool) (length_of : Text → ℕ) (max_size overlap : ℕ) where
  -- a position is in a block or in a piece for the next
  abbrev IsHeld : ℕ → MergeState → Type 0
  IsHeld i s = InSpans i s.chunks ⊎ InPieces i s.current

  merge_piece-IsHeld :
      (text : Text) (p : Text) (o i : ℕ) (s : MergeState)
      → MergeAt is_space length_of max_size overlap text s
      → IsHeld i s ⊎ InPieces i ((p, o) ∷ [])
      → IsHeld i (merge_piece is_space length_of max_size overlap (p, o) s)
  unfolding merge_piece
  merge_piece-IsHeld text p o i s k h =
      let n = length_of p in
      let contiguous : Bool = is_empty s.current || (o == s.current_end) in
      let kept : List Piece × ℕ =
        if contiguous
        then overlap_of is_space length_of max_size overlap n (reversed s.current) [] 0
        else ([], 0) in
      if_both (IsHeld i)
        (not (is_empty s.current) && (ltb max_size (s.current_len + n) || not contiguous))
        (after_flush kept.0 h) (after_add h)
    where
      after_flush :
          (kept : List Piece)
          → IsHeld i s ⊎ InPieces i ((p, o) ∷ [])
          → InSpans i (s.chunks ++ finish s.current ∷ []) ⊎ InPieces i (kept ++ (p, o) ∷ [])
      after_flush kept (inl (inl h)) = inl (InSpans-left i s.chunks (finish s.current ∷ []) h)
      after_flush kept (inl (inr h)) = inl (
          InSpans-right i s.chunks (finish s.current ∷ [])
            (finish-InSpans text i k.run.0 s.current_end s.current k.run.1 h))
      after_flush kept (inr h) = inr (InPieces-right i kept ((p, o) ∷ []) h)

      after_add :
          IsHeld i s ⊎ InPieces i ((p, o) ∷ [])
          → InSpans i s.chunks ⊎ InPieces i (s.current ++ (p, o) ∷ [])
      after_add (inl (inl h)) = inl h
      after_add (inl (inr h)) = inr (InPieces-left i s.current ((p, o) ∷ []) h)
      after_add (inr h) = inr (InPieces-right i s.current ((p, o) ∷ []) h)

  merge_pieces-IsHeld :
      (text : Text) (i : ℕ) (ps : List Piece) (s : MergeState)
      → EachAt text ps
      → MergeAt is_space length_of max_size overlap text s
      → IsHeld i s ⊎ InPieces i ps
      → IsHeld i (merge_pieces is_space length_of max_size overlap ps s)
  unfolding merge_pieces EachAt InPieces
  merge_pieces-IsHeld text i [] s h k (inl g) = g
  merge_pieces-IsHeld text i [] s h k (inr g) = absurd g
  merge_pieces-IsHeld text i ((p, o) ∷ ps) s h k g =
      merge_pieces-IsHeld text i ps (merge_piece is_space length_of max_size overlap (p, o) s) h.1
        (merge_piece-MergeAt is_space length_of max_size overlap text p o s h.0 k) (here g)
    where
      here :
          IsHeld i s ⊎ InPieces i ((p, o) ∷ ps)
          → IsHeld i (merge_piece is_space length_of max_size overlap (p, o) s) ⊎ InPieces i ps
      here (inl g) = inl (merge_piece-IsHeld text p o i s k (inl g))
      here (inr (inl g)) = inl (merge_piece-IsHeld text p o i s k (inr (inl g)))
      here (inr (inr g)) = inr g

  merge_end-InSpans :
      (text : Text) (i : ℕ) (s : MergeState)
      → MergeAt is_space length_of max_size overlap text s
      → IsHeld i s
      → InSpans i (merge_end s)
  unfolding merge_end InPieces
  merge_end-InSpans text i s k h =
      if_known (InSpans i) (is_empty s.current) (λ e. nothing_left s.current e h) (λ left. last h)
    where
      nothing_left :
          (ps : List Piece)
          → is_empty ps ≡ true
          → InSpans i s.chunks ⊎ InPieces i ps
          → InSpans i s.chunks
      nothing_left ps e (inl g) = g
      nothing_left [] e (inr g) = absurd g
      nothing_left (p ∷ ps) e (inr g) = cc

      last : IsHeld i s → InSpans i (s.chunks ++ finish s.current ∷ [])
      last (inl g) = InSpans-left i s.chunks (finish s.current ∷ []) g
      last (inr g) =
          InSpans-right i s.chunks (finish s.current ∷ [])
            (finish-InSpans text i k.run.0 s.current_end s.current k.run.1 g)

  pub merge-InSpans :
      (text : Text) (i : ℕ) (ps : List Piece)
      → EachAt text ps
      → InPieces i ps
      → InSpans i (merge is_space length_of max_size overlap ps)
  unfolding merge Run EachSpan
  merge-InSpans text i ps h g =
      let start : MergeState = record {
        chunks = [];
        current = [];
        current_len = 0;
        current_end = 0;
      } in
      let k : MergeAt is_space length_of max_size overlap text start = record {
        done = tt;
        run = (0, refl);
      } in
      merge_end-InSpans text i (merge_pieces is_space length_of max_size overlap ps start)
        (merge_pieces-MergeAt is_space length_of max_size overlap text ps start h k)
        (merge_pieces-IsHeld text i ps start h k (inr g))
