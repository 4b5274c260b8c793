-- ===== src/Rag/Chunker/Covers.antt =====
-- Every visible character of a text is in a piece of the split
-- (src/thumbelina/rag/ingestion/chunker.py).
use mathlib.Core.Path.{subst}
use thumbelina.Prelude.{
  ℕ, zero, suc, ◌+◌, ◌-◌, ◌≤◌, ◌<◌, Bool, true, false, not, ◌⊎◌, List, [], ◌∷◌, ◌++◌, take, drop,
  length, ltb, leb, if_both, ◌≡◌, refl, sym, ap, ◌∙◌, arith, Bool-cases, inl, inr,
}
use thumbelina.Rag.Texts.{Text, is_blank}
use thumbelina.Rag.Chunker.{Piece, blocks, shift, split_by, split_parts, is_chosen, split}
use thumbelina.Rag.Chunker.Positions.{length-drop, drop-append, drop-drop, At, Run}
use thumbelina.Rag.Chunker.Cuts.{split_by-Run}

-- a position that is in one of the pieces
unfoldable pub InPieces : ℕ → List Piece → Type 0
InPieces i [] = ⊥
InPieces i ((p, o) ∷ ps) = ((o ≤ i) × (i < o + length p)) ⊎ InPieces i ps

pub InPieces-left : (i : ℕ) (ps qs : List Piece) → InPieces i ps → InPieces i (ps ++ qs)
unfolding InPieces
InPieces-left i [] qs h = absurd h
InPieces-left i (p ∷ ps) qs (inl h) = inl h
InPieces-left i (p ∷ ps) qs (inr h) = inr (InPieces-left i ps qs h)

pub InPieces-right : (i : ℕ) (ps qs : List Piece) → InPieces i qs → InPieces i (ps ++ qs)
unfolding InPieces
InPieces-right i [] qs h = h
InPieces-right i (p ∷ ps) qs h = inr (InPieces-right i ps qs h)

below-take : (m j : ℕ) (t : Text) → j < m → j < length t → j < length (take m t)
below-take zero j t h k = absurd (omega (arith, h))
below-take (suc m) j [] h k = absurd (omega (arith, k))
below-take (suc m) zero (c ∷ t) h k = omega arith
below-take (suc m) (suc j) (c ∷ t) h k =
    omega (arith, below-take m j t (omega (arith, h)) (omega (arith, k)))

InPieces-shift : (o i : ℕ) (ps : List Piece) → InPieces i ps → InPieces (o + i) (shift o ps)
unfolding InPieces
InPieces-shift o i [] h = absurd h
InPieces-shift o i (p ∷ ps) (inl h) = inl (omega (arith, h.0), omega (arith, h.1))
InPieces-shift o i (p ∷ ps) (inr h) = inr (InPieces-shift o i ps h)

module _ (is_space : ℕ → Bool) where
  abbrev first_visible : Text → Bool
  first_visible [] = false
  first_visible (c ∷ t) = not (is_space c)

  -- the character at a position is there and no white space
  unfoldable pub is_visible : Text → ℕ → Bool
  is_visible text i = first_visible (drop i text)

  first_visible-append : (t u : Text) → 1 ≤ length t → first_visible (t ++ u) ≡ first_visible t
  first_visible-append [] u h = absurd (omega (arith, h))
  first_visible-append (c ∷ t) u h = refl

  pub is_visible-below : (t : Text) (i : ℕ) → is_visible t i ≡ true → i < length t
  unfolding is_visible
  is_visible-below [] zero h = cc
  is_visible-below [] (suc i) h = cc
  is_visible-below (c ∷ t) zero h = omega arith
  is_visible-below (c ∷ t) (suc i) h = omega (arith, is_visible-below t i h)

  is_visible-is_blank : (t : Text) (i : ℕ) → is_visible t i ≡ true → is_blank is_space t ≡ false
  unfolding is_visible is_blank
  is_visible-is_blank [] zero h = cc
  is_visible-is_blank [] (suc i) h = cc
  is_visible-is_blank (c ∷ t) zero h = ground (arith, h)
  is_visible-is_blank (c ∷ t) (suc i) h = ground (arith, is_visible-is_blank t i h)

  is_visible-At :
      (text : Text) (s j : ℕ) (p : Text)
      → At text s p
      → j < length p
      → is_visible text (s + j) ≡ true
      → is_visible p j ≡ true
  unfolding is_visible
  is_visible-At text s j p h k v =
      sym (
        first_visible-append (drop j p) (drop (s + length p) text)
          (omega (arith, k, length-drop j p)))
      ∙ ap first_visible (
          sym (drop-append j p (drop (s + length p) text) (omega (arith, k)))
          ∙ ap (drop j) (sym h.there)
          ∙ sym (drop-drop s j text))
      ∙ v

  module _ (length_of : Text → ℕ) (max_size : ℕ) where
    blocks-InPieces :
        (fuel : ℕ) (o : ℕ) (rest : Text) (j : ℕ)
        → 1 ≤ max_size
        → length rest ≤ fuel
        → j < length rest
        → InPieces (o + j) (blocks fuel max_size o rest)
    unfolding InPieces blocks
    blocks-InPieces zero o rest j m f h = absurd (omega (arith, f, h))
    blocks-InPieces (suc fuel) o [] j m f h = absurd (omega (arith, h))
    blocks-InPieces (suc fuel) o (c ∷ rest) j m f h = elim (Bool-cases (ltb j max_size)) [
      | inl now ↦
          inl (omega arith, omega (arith, below-take max_size j (c ∷ rest) (ground (arith, now)) h))
      | inr later ↦
          let l : max_size ≤ j = ground (arith, later) in
          inr (
            subst (λ i. InPieces i (blocks fuel max_size (o + max_size) (drop max_size (c ∷ rest))))
              (omega (arith, l))
              (blocks-InPieces fuel (o + max_size) (drop max_size (c ∷ rest)) (j - max_size) m
                (omega (arith, f, m, length-drop max_size (c ∷ rest)))
                (omega (arith, h, l, length-drop max_size (c ∷ rest)))))
    ]

    split_parts-InPieces :
        (smaller : Text → List Piece)
        → ((t : Text) (j : ℕ) → is_visible t j ≡ true → InPieces j (smaller t))
        → (text : Text) (s e i : ℕ) (parts : List Piece) → Run text s parts e
        → s ≤ i
        → i < e
        → is_visible text i ≡ true
        → InPieces i (split_parts is_space length_of max_size smaller parts)
    unfolding Run split_parts InPieces
    split_parts-InPieces smaller g text s e i [] r a b v = absurd (omega (arith, r, a, b))
    split_parts-InPieces smaller g text s e i ((part, o) ∷ parts) r a b v =
        let rest = split_parts is_space length_of max_size smaller parts in
        elim (Bool-cases (ltb i (s + length part))) [
          | inl here ↦
              let j : ℕ = i - s in
              let j_below : j < length part = ground (arith, here, a) in
              let at_i : s + j ≡ i = omega (arith, a) in
              let v' : is_visible part j ≡ true =
                is_visible-At text s j part r.1 j_below
                  (subst (λ k. is_visible text k ≡ true) (sym at_i) v) in
              rw (is_visible-is_blank part j v') (
                if_both (InPieces i) (leb (length_of part) max_size)
                  (inl (omega (arith, r.0, a), omega (arith, r.0, at_i, j_below)))
                  (InPieces-left i (shift o (smaller part)) rest (
                    subst (λ k. InPieces k (shift o (smaller part))) (omega (arith, r.0, at_i))
                      (InPieces-shift o j (smaller part) (g part j v')))))
          | inr there ↦
              let k =
                split_parts-InPieces smaller g text (s + length part) e i parts r.2
                  (ground (arith, there)) b v in
              if_both (InPieces i) (is_blank is_space part) k (
                if_both (InPieces i) (leb (length_of part) max_size) (inr k)
                  (InPieces-right i (shift o (smaller part)) rest k))
        ]

    in_whole : (text : Text) (i : ℕ) → is_visible text i ≡ true → InPieces i ((text, 0) ∷ [])
    unfolding InPieces
    in_whole text i v = inl (omega arith, omega (arith, is_visible-below text i v))

    pub split-InPieces :
        1 ≤ max_size
        → (separators : List Text) (text : Text) (i : ℕ) → is_visible text i ≡ true
        → InPieces i (split is_space length_of max_size separators text)
    unfolding split
    split-InPieces m separators [] i v = absurd (omega (arith, is_visible-below [] i v))
    split-InPieces m [] (c ∷ text) i v =
        if_both (InPieces i) (leb (length_of (c ∷ text)) max_size) (in_whole (c ∷ text) i v) (
          subst (λ k. InPieces k (blocks (length (c ∷ text)) max_size 0 (c ∷ text))) (omega arith)
            (blocks-InPieces (length (c ∷ text)) 0 (c ∷ text) i m (omega arith)
              (is_visible-below (c ∷ text) i v)))
    split-InPieces m (separator ∷ remaining) (c ∷ text) i v =
        if_both (InPieces i) (leb (length_of (c ∷ text)) max_size) (in_whole (c ∷ text) i v) (
          if_both (InPieces i) (is_chosen (c ∷ text) separator remaining)
            (split_parts-InPieces (split is_space length_of max_size remaining)
              (λ t j w. split-InPieces m remaining t j w) (c ∷ text) 0 (length (c ∷ text)) i
              (split_by (c ∷ text) separator) (split_by-Run (c ∷ text) separator) (omega arith)
              (is_visible-below (c ∷ text) i v) v)
            (split-InPieces m remaining (c ∷ text) i v))
