-- ===== src/Rag/Chunker/Slices.antt =====
-- The blocks that the pieces are merged to are slices of the text
-- (src/thumbelina/rag/ingestion/chunker.py).
use mathlib.Core.List.{append-nil}
use mathlib.Core.Path.{subst}
use thumbelina.Prelude.{
  ℕ, ◌+◌, Bool, true, not, ◌&&◌, ◌||◌, List, [], ◌∷◌, ◌++◌, map, drop, length, length-append,
  append_assoc, ltb, ◌==◌, if◌then◌else◌, if_both, if_known, ◌≡◌, refl, sym, ap, ◌∙◌, arith,
}
use thumbelina.Rag.Texts.{Text, is_empty, join}
use thumbelina.Rag.Chunker.{
  Piece, Span, MergeState, finish, last_end, reversed, add_piece, merge_end, overlap_of,
  merge_piece, merge_pieces, merge,
}
use thumbelina.Rag.Chunker.Positions.{drop_same, At, Run, EachAt}
use thumbelina.Rag.Chunker.Cuts.{Run-append}

-- a block at its place
unfoldable pub SpanAt : Text → Span → Type 0
SpanAt text b = At text b.start b.text × (b.end ≡ b.start + length b.text)

unfoldable pub EachSpan : (Span → Type 0) → List Span → Type 0
EachSpan P [] = Unit
EachSpan P (b ∷ bs) = P b × EachSpan P bs

pub EachSpan-append :
    (P : Span → Type 0) (bs cs : List Span) → EachSpan P bs → EachSpan P cs → EachSpan P (bs ++ cs)
unfolding EachSpan
EachSpan-append P [] cs h k = k
EachSpan-append P (b ∷ bs) cs h k = (h.0, EachSpan-append P bs cs h.1 k)

At-append :
    (text : Text) (s : ℕ) (p q : Text) → At text s p → At text (s + length p) q → At text s (p ++ q)
At-append text s p q h k = record {
  inside = omega (arith, k.inside, length-append p q);
  there =
      h.there
      ∙ ap (λ t. p ++ t) k.there
      ∙ sym (append_assoc p q (drop (s + length p + length q) text))
      ∙ ap (λ t. (p ++ q) ++ t)
          (drop_same (s + length p + length q) (s + length (p ++ q)) text
            (omega (arith, length-append p q)));
}

abbrev pub texts : List Piece → List Text
texts ps = map (λ (q : Piece). q.0) ps

-- the text of a run of pieces that is not empty, and its end
Run-join :
    (text : Text) (s : ℕ) (p : Piece) (ps : List Piece) (e : ℕ)
    → Run text s (p ∷ ps) e
    → At text s (join (texts (p ∷ ps)))
      × (last_end p ps ≡ e)
      × (e ≡ s + length (join (texts (p ∷ ps))))
unfolding Run join
Run-join text s (p, o) [] e h = (
  subst (At text s) (sym (append-nil p)) h.1,
  omega (arith, h.0, h.2),
  omega (arith, h.2, ap (λ t. length t) (append-nil p)),
)
Run-join text s (p, o) (q ∷ ps) e h =
    let (a, l, n) = Run-join text (s + length p) q ps e h.2 in
    let r = join (texts (q ∷ ps)) in
    (At-append text s p r h.1 a, l, omega (arith, n, length-append p r))

pub finish-SpanAt :
    (text : Text) (s : ℕ) (p : Piece) (ps : List Piece) (e : ℕ)
    → Run text s (p ∷ ps) e
    → SpanAt text (finish (p ∷ ps)) × ((finish (p ∷ ps)).end ≡ e)
unfolding SpanAt finish Run
finish-SpanAt text s (p, o) ps e h =
    let (a, l, n) = Run-join text s (p, o) ps e h in
    ((subst (λ k. At text k (join (texts ((p, o) ∷ ps)))) (sym h.0) a, omega (arith, l, n, h.0)), l)

-- the later pieces of a run are a run
Run-suffix :
    (text : Text) (s e : ℕ) (pre ps : List Piece)
    → Run text s (pre ++ ps) e
    → (a : ℕ) × Run text a ps e
unfolding Run
Run-suffix text s e [] ps h = (s, h)
Run-suffix text s e ((p, o) ∷ pre) ps h = Run-suffix text (s + length p) e pre ps h.2

reversed-append : (ps qs : List Piece) → reversed (ps ++ qs) ≡ reversed qs ++ reversed ps
unfolding reversed
reversed-append [] qs = sym (append-nil (reversed qs))
reversed-append (p ∷ ps) qs =
    ap (λ r. r ++ p ∷ []) (reversed-append ps qs)
    ∙ append_assoc (reversed qs) (reversed ps) (p ∷ [])

reversed-reversed : (ps : List Piece) → reversed (reversed ps) ≡ ps
unfolding reversed
reversed-reversed [] = refl
reversed-reversed (p ∷ ps) =
    reversed-append (reversed ps) (p ∷ []) ∙ ap (◌∷◌ p) (reversed-reversed ps)

module _ (is_space : ℕ → Bool) (length_of : Text → ℕ) (max_size overlap : ℕ) where
  -- what is kept are the last of the pieces
  overlap_of-suffix :
      (part_len : ℕ) (rs taken : List Piece) (n : ℕ)
      → (pre : List Piece) × (reversed rs ++ taken
          ≡ pre ++ (overlap_of is_space length_of max_size overlap part_len rs taken n).0)
  unfolding reversed overlap_of
  overlap_of-suffix part_len [] taken n = ([], refl)
  overlap_of-suffix part_len (r ∷ rs) taken n =
      if_both
        (λ (k : List Piece × ℕ). (pre : List Piece) × (reversed (r ∷ rs) ++ taken ≡ pre ++ k.0))
        (ltb overlap (n + length_of r.0) || ltb max_size (n + length_of r.0 + part_len))
        (reversed (r ∷ rs), refl)
        (let (pre, h) = overlap_of-suffix part_len rs (r ∷ taken) (n + length_of r.0) in
          (pre, append_assoc (reversed rs) (r ∷ []) taken ∙ h))

  -- the overlap of a run is a run with the same end
  pub overlap_of-Run :
      (part_len : ℕ) (text : Text) (s e : ℕ) (ps : List Piece)
      → Run text s ps e
      → (a : ℕ) × Run text a
          (overlap_of is_space length_of max_size overlap part_len (reversed ps) [] 0).0
          e
  overlap_of-Run part_len text s e ps h =
      let (pre, g) = overlap_of-suffix part_len (reversed ps) [] 0 in
      let kept = (overlap_of is_space length_of max_size overlap part_len (reversed ps) [] 0).0 in
      Run-suffix text s e pre kept (
        subst (λ l. Run text s l e)
          (sym (reversed-reversed ps) ∙ sym (append-nil (reversed (reversed ps))) ∙ g) h)

  -- the blocks that are done, and a run of pieces for the next
  pub record MergeAt (text : Text) (s : MergeState) : Type 0 where
    pub done : EachSpan (SpanAt text) s.chunks
    pub run : (a : ℕ) × Run text a s.current s.current_end

  add_piece-MergeAt :
      (text : Text) (p : Text) (o n : ℕ) (chunks : List Span) (kept : List Piece × ℕ)
      → At text o p
      → EachSpan (SpanAt text) chunks
      → ((a : ℕ) × Run text a kept.0 o)
      → MergeAt text (add_piece (p, o) n chunks kept)
  unfolding Run
  add_piece-MergeAt text p o n chunks kept h d (a, r) = record {
    done = d;
    run = (a, Run-append text a o (o + length p) kept.0 ((p, o) ∷ []) r (refl, h, refl));
  }

  flushed :
      (text : Text) (s : MergeState)
      → not (is_empty s.current) ≡ true
      → MergeAt text s
      → EachSpan (SpanAt text) (s.chunks ++ finish s.current ∷ [])
  unfolding EachSpan
  flushed text s ne h = at s.current ne h.run
    where
      at :
          (ps : List Piece)
          → not (is_empty ps) ≡ true
          → ((a : ℕ) × Run text a ps s.current_end)
          → EachSpan (SpanAt text) (s.chunks ++ finish ps ∷ [])
      at [] ne (a, r) = cc
      at (p ∷ ps) ne (a, r) =
          EachSpan-append (SpanAt text) s.chunks (finish (p ∷ ps) ∷ []) h.done
            ((finish-SpanAt text a p ps s.current_end r).0, tt)

  -- the pieces end where the next one begins, or there are none
  joined :
      (text : Text) (o e : ℕ) (ps : List Piece)
      → ((a : ℕ) × Run text a ps e)
      → (is_empty ps || (o == e)) ≡ true
      → (a : ℕ) × Run text a ps o
  unfolding Run
  joined text o e [] r h = (o, refl)
  joined text o e (p ∷ ps) (a, r) h = (a, subst (Run text a (p ∷ ps)) (ground (arith, h)) r)

  pub merge_piece-MergeAt :
      (text : Text) (p : Text) (o : ℕ) (s : MergeState)
      → At text o p
      → MergeAt text s
      → MergeAt text (merge_piece is_space length_of max_size overlap (p, o) s)
  unfolding merge_piece Run
  merge_piece-MergeAt text p o s h k =
      let n = length_of p in
      let contiguous : Bool = is_empty s.current || (o == s.current_end) in
      let overlap_pieces =
        overlap_of is_space length_of max_size overlap n (reversed s.current) [] 0 in
      if_known (MergeAt text)
        (not (is_empty s.current) && (ltb max_size (s.current_len + n) || not contiguous))
        (λ full.
          add_piece-MergeAt text p o n (s.chunks ++ finish s.current ∷ [])
            (if contiguous then overlap_pieces else ([], 0)) h
            (flushed text s (ground (arith, full)) k)
            (if_known (λ (kept : List Piece × ℕ). (a : ℕ) × Run text a kept.0 o) contiguous
              (λ c.
                let (a, r) = joined text o s.current_end s.current k.run c in
                overlap_of-Run n text a o s.current r)
              (λ apart. (o, refl))))
        (λ room.
          add_piece-MergeAt text p o n s.chunks (s.current, s.current_len) h k.done
            (joined text o s.current_end s.current k.run (ground (arith, room))))

  pub merge_pieces-MergeAt :
      (text : Text) (ps : List Piece) (s : MergeState)
      → EachAt text ps
      → MergeAt text s
      → MergeAt text (merge_pieces is_space length_of max_size overlap ps s)
  unfolding merge_pieces EachAt
  merge_pieces-MergeAt text [] s h k = k
  merge_pieces-MergeAt text ((p, o) ∷ ps) s h k =
      merge_pieces-MergeAt text ps (merge_piece is_space length_of max_size overlap (p, o) s) h.1
        (merge_piece-MergeAt text p o s h.0 k)

  pub merge-SpanAt :
      (text : Text) (ps : List Piece)
      → EachAt text ps
      → EachSpan (SpanAt text) (merge is_space length_of max_size overlap ps)
  unfolding merge merge_end EachSpan Run
  merge-SpanAt text ps h =
      let start : MergeState = record {
        chunks = [];
        current = [];
        current_len = 0;
        current_end = 0;
      } in
      let s = merge_pieces is_space length_of max_size overlap ps start in
      let k = merge_pieces-MergeAt text ps start h record { done = tt; run = (0, refl) } in
      if_known (EachSpan (SpanAt text)) (is_empty s.current) (λ none_left. k.done)
        (λ left. flushed text s (ground (arith, left)) k)
