-- ===== src/Rag/Chunker/Cuts.antt =====
-- The pieces of a split stand at their places (src/thumbelina/rag/ingestion/chunker.py).
use mathlib.Core.List.{append-nil}
use mathlib.Core.Option.{some_inj}
use mathlib.Core.Path.{subst}
use thumbelina.Prelude.{
  ℕ, zero, suc, ◌+◌, ◌≤◌, ◌<◌, true, Option, none, some, List, [], ◌∷◌, ◌++◌, take, drop, length,
  take-drop, if_known, ◌≡◌, refl, sym, ap, ◌∙◌, arith,
}
use thumbelina.Rag.Texts.{Text, starts_with, next_index, find}
use thumbelina.Rag.Chunker.{Piece, characters, cut_found, cut_at, split_by}
use thumbelina.Rag.Chunker.Positions.{
  length-take, length-drop, drop_same, drop-drop, drop_all, At, Run, EachAt,
}

-- the whole of what is left of a text
pub At-rest :
    (text : Text) (s : ℕ) (rest : Text)
    → drop s text ≡ rest
    → s + length rest ≡ length text
    → At text s rest
At-rest text s rest h k = record {
  inside = omega (arith, k);
  there =
      h
      ∙ sym (append-nil rest)
      ∙ ap (λ t. rest ++ t) (sym (ap (λ n. drop n text) k ∙ drop_all text));
}

-- the first part of what is left of a text
pub At-take :
    (text : Text) (s n : ℕ) (rest : Text)
    → drop s text ≡ rest
    → s + length rest ≡ length text
    → n ≤ length rest
    → At text s (take n rest)
At-take text s n rest h k l = record {
  inside = omega (arith, k, l, length-take n rest l);
  there =
      h
      ∙ sym (take-drop n rest)
      ∙ ap (λ t. take n rest ++ t)
          (ap (drop n) (sym h)
            ∙ sym (drop-drop s n text)
            ∙ ap (λ m. drop (s + m) text) (sym (length-take n rest l)));
}

starts_with-length : (s t : Text) → starts_with s t ≡ true → length s ≤ length t
unfolding starts_with
starts_with-length [] t h = omega arith
starts_with-length (c ∷ s) [] h = cc
starts_with-length (c ∷ s) (d ∷ t) h = ground (arith, h, starts_with-length s t)

pub find-length : (s t : Text) (i : ℕ) → find s t ≡ some i → i + length s ≤ length t
unfolding find
find-length [] [] i h = omega (arith, some_inj.0 h)
find-length (a ∷ s) [] i h = cc
find-length s (c ∷ t) i h =
    if_known (λ (o : Option ℕ). o ≡ some i → i + length s ≤ length (c ∷ t)) (starts_with s (c ∷ t))
      (λ first e. omega (arith, some_inj.0 e, starts_with-length s (c ∷ t) first))
      (λ later e. next (find s t) (find-length s t) e) h
  where
    next :
        (o : Option ℕ)
        → ((j : ℕ) → o ≡ some j → j + length s ≤ length t)
        → next_index o ≡ some i
        → i + length s ≤ suc (length t)
    next none k e = cc
    next (some j) k e = omega (arith, k j refl, some_inj.0 e)

pub Run-append :
    (text : Text) (a b c : ℕ) (ps qs : List Piece)
    → Run text a ps b
    → Run text b qs c
    → Run text a (ps ++ qs) c
unfolding Run
Run-append text a b c [] qs h k = subst (λ n. Run text n qs c) (sym h) k
Run-append text a b c ((p, o) ∷ ps) qs h k =
    (h.0, h.1, Run-append text (a + length p) b c ps qs h.2 k)

pub Run-EachAt : (text : Text) (a b : ℕ) (ps : List Piece) → Run text a ps b → EachAt text ps
unfolding Run EachAt
Run-EachAt text a b [] h = tt
Run-EachAt text a b ((p, o) ∷ ps) h =
    (subst (λ n. At text n p) (sym h.0) h.1, Run-EachAt text (a + length p) b ps h.2)

characters-Run :
    (text : Text) (s : ℕ) (rest : Text)
    → drop s text ≡ rest
    → s + length rest ≡ length text
    → Run text s (characters s rest) (length text)
unfolding Run characters
characters-Run text s [] h k = omega (arith, k)
characters-Run text s (c ∷ rest) h k = (
  refl,
  At-take text s 1 (c ∷ rest) h k (omega arith),
  subst (λ n. Run text n (characters (suc s) rest) (length text)) (omega arith)
      (characters-Run text (suc s) rest
        (drop_same (suc s) (s + 1) text (omega arith) ∙ drop-drop s 1 text ∙ ap (drop 1) h)
        (omega (arith, k))),
)

cut_found-Run :
    (next : ℕ → Text → List Piece) (separator text : Text) (s : ℕ) (rest : Text) (o : Option ℕ)
    → drop s text ≡ rest
    → s + length rest ≡ length text
    → ((i : ℕ) → o ≡ some i → i + length separator ≤ length rest)
    → ((i : ℕ)
        → o ≡ some i
        → Run text
            (s + (i + length separator))
            (next (s + (i + length separator)) (drop (i + length separator) rest))
            (length text))
    → Run text s (cut_found next separator s rest o) (length text)
unfolding Run cut_found
cut_found-Run next separator text s [] none d l k g = omega (arith, l)
cut_found-Run next separator text s (c ∷ rest) none d l k g =
    (refl, At-rest text s (c ∷ rest) d l, l)
cut_found-Run next separator text s rest (some i) d l k g = (
  refl,
  At-take text s (i + length separator) rest d l (k i refl),
  subst
      (λ n.
        Run text n (next (s + (i + length separator)) (drop (i + length separator) rest))
          (length text))
      (ap (λ n. s + n) (sym (length-take (i + length separator) rest (k i refl)))) (g i refl),
)

cut_at-Run :
    (fuel : ℕ) (separator text : Text) (s : ℕ) (rest : Text)
    → 1 ≤ length separator
    → length rest < fuel
    → drop s text ≡ rest
    → s + length rest ≡ length text
    → Run text s (cut_at fuel separator s rest) (length text)
unfolding cut_at
cut_at-Run zero separator text s rest h f d l = absurd (omega (arith, f))
cut_at-Run (suc fuel) separator text s rest h f d l =
    cut_found-Run (cut_at fuel separator) separator text s rest (find separator rest) d l
      (find-length separator rest)
      (λ i e.
        let n : ℕ = i + length separator in
        let bound = find-length separator rest i e in
        cut_at-Run fuel separator text (s + n) (drop n rest) h
          (omega (arith, f, h, bound, length-drop n rest)) (drop-drop s n text ∙ ap (drop n) d)
          (omega (arith, l, bound, length-drop n rest)))

pub split_by-Run : (text separator : Text) → Run text 0 (split_by text separator) (length text)
unfolding split_by
split_by-Run text [] = characters-Run text 0 text refl (omega arith)
split_by-Run text (c ∷ separator) =
    cut_at-Run (suc (length text)) (c ∷ separator) text 0 text (omega arith) (omega arith) refl
      (omega arith)
