-- ===== src/Rag/Chunker/Pieces.antt =====
-- The pieces of the recursive split stand at their places (src/thumbelina/rag/ingestion/chunker.py).
use thumbelina.Prelude.{
  ℕ, zero, suc, ◌+◌, ◌≤◌, Bool, List, [], ◌∷◌, ◌++◌, take, drop, length, leb, if_both, ◌≡◌, refl,
  sym, ap, ◌∙◌, arith, Bool-cases, inl, inr,
}
use mathlib.Core.Path.{subst}
use thumbelina.Rag.Texts.{Text, is_empty, is_blank}
use thumbelina.Rag.Chunker.{Piece, blocks, shift, split_by, split_parts, is_chosen, split}
use thumbelina.Rag.Chunker.Positions.{length-drop, drop-drop, At, At-At, EachAt}
use thumbelina.Rag.Chunker.Cuts.{At-rest, At-take, Run-EachAt, split_by-Run}

whole : (text : Text) → At text 0 text
whole text = At-rest text 0 text refl (omega arith)

take_all : (n : ℕ) (t : Text) → length t ≤ n → take n t ≡ t
take_all zero [] h = refl
take_all (suc n) [] h = refl
take_all zero (c ∷ t) h = absurd (omega (arith, h))
take_all (suc n) (c ∷ t) h = ap (◌∷◌ c) (take_all n t (omega (arith, h)))

drop_past : (n : ℕ) (t : Text) → length t ≤ n → drop n t ≡ []
drop_past zero [] h = refl
drop_past (suc n) [] h = refl
drop_past zero (c ∷ t) h = absurd (omega (arith, h))
drop_past (suc n) (c ∷ t) h = drop_past n t (omega (arith, h))

blocks_nil : (fuel size i : ℕ) → blocks fuel size i [] ≡ []
unfolding blocks
blocks_nil zero size i = refl
blocks_nil (suc fuel) size i = refl

blocks-EachAt :
    (fuel size : ℕ) (text : Text) (i : ℕ) (rest : Text)
    → drop i text ≡ rest
    → i + length rest ≡ length text
    → EachAt text (blocks fuel size i rest)
unfolding EachAt blocks
blocks-EachAt zero size text i rest h k = tt
blocks-EachAt (suc fuel) size text i [] h k = tt
blocks-EachAt (suc fuel) size text i (c ∷ rest) h k =
    elim (Bool-cases (leb size (length (c ∷ rest)))) [
      | inl fits ↦
          let l : size ≤ length (c ∷ rest) = ground (arith, fits) in
          (
            At-take text i size (c ∷ rest) h k l,
            blocks-EachAt fuel size text (i + size) (drop size (c ∷ rest))
                (drop-drop i size text ∙ ap (drop size) h)
                (omega (arith, k, l, length-drop size (c ∷ rest))),
          )
      | inr larger ↦
          let l : length (c ∷ rest) ≤ size = ground (arith, larger) in
          (
            subst (At text i) (sym (take_all size (c ∷ rest) l)) (At-rest text i (c ∷ rest) h k),
            subst (EachAt text)
                (sym (
                  ap (blocks fuel size (i + size)) (drop_past size (c ∷ rest) l)
                  ∙ blocks_nil fuel size (i + size)))
                tt,
          )
    ]

EachAt-append :
    (text : Text) (ps qs : List Piece) → EachAt text ps → EachAt text qs → EachAt text (ps ++ qs)
unfolding EachAt
EachAt-append text [] qs h k = k
EachAt-append text (p ∷ ps) qs h k = (h.0, EachAt-append text ps qs h.1 k)

shift-EachAt :
    (text part : Text) (o : ℕ) (ps : List Piece)
    → At text o part
    → EachAt part ps
    → EachAt text (shift o ps)
unfolding EachAt
shift-EachAt text part o [] h k = tt
shift-EachAt text part o ((p, i) ∷ ps) h k =
    (At-At text part o i p h k.0, shift-EachAt text part o ps h k.1)

module _ (is_space : ℕ → Bool) (length_of : Text → ℕ) (max_size : ℕ) where
  split_parts-EachAt :
      (text : Text) (smaller : Text → List Piece)
      → ((t : Text) → EachAt t (smaller t))
      → (parts : List Piece) → EachAt text parts
      → EachAt text (split_parts is_space length_of max_size smaller parts)
  unfolding EachAt split_parts
  split_parts-EachAt text smaller h [] k = tt
  split_parts-EachAt text smaller h ((part, o) ∷ parts) k =
      let rest = split_parts-EachAt text smaller h parts k.1 in
      if_both (EachAt text) (is_blank is_space part) rest (
        if_both (EachAt text) (leb (length_of part) max_size) (k.0, rest)
          (EachAt-append text (shift o (smaller part))
            (split_parts is_space length_of max_size smaller parts)
            (shift-EachAt text part o (smaller part) k.0 (h part)) rest))

  pub split-EachAt :
      (separators : List Text) (text : Text)
      → EachAt text (split is_space length_of max_size separators text)
  unfolding EachAt split
  split-EachAt [] text = if_both (EachAt text) (is_empty text) tt (
      if_both (EachAt text) (leb (length_of text) max_size) (whole text, tt)
        (blocks-EachAt (length text) max_size text 0 text refl (omega arith)))
  split-EachAt (separator ∷ remaining) text = if_both (EachAt text) (is_empty text) tt (
      if_both (EachAt text) (leb (length_of text) max_size) (whole text, tt)
        (if_both (EachAt text) (is_chosen text separator remaining)
          (split_parts-EachAt text (split is_space length_of max_size remaining)
            (split-EachAt remaining) (split_by text separator)
            (Run-EachAt text 0 (length text) (split_by text separator)
              (split_by-Run text separator)))
          (split-EachAt remaining text)))
