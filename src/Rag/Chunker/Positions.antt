-- ===== src/Rag/Chunker/Positions.antt =====
-- Where a piece stands in a text (src/thumbelina/rag/ingestion/chunker.py).
use thumbelina.Prelude.{
  ℕ, zero, suc, ◌+◌, ◌-◌, ◌≤◌, List, [], ◌∷◌, ◌++◌, take, drop, length, append_assoc, ◌≡◌, refl,
  sym, ap, ◌∙◌, arith,
}
use thumbelina.Rag.Texts.{Text, slice}
use thumbelina.Rag.Chunker.{Piece}

pub length-take : (n : ℕ) (t : Text) → n ≤ length t → length (take n t) ≡ n
length-take zero t h = refl
length-take (suc n) [] h = absurd (omega (arith, h))
length-take (suc n) (c ∷ t) h = omega (arith, length-take n t (omega (arith, h)))

pub length-drop : (n : ℕ) (t : Text) → length (drop n t) ≡ length t - n
length-drop zero t = omega arith
length-drop (suc n) [] = omega arith
length-drop (suc n) (c ∷ t) = omega (arith, length-drop n t)

pub drop-append : (n : ℕ) (t u : Text) → n ≤ length t → drop n (t ++ u) ≡ drop n t ++ u
drop-append zero t u h = refl
drop-append (suc n) [] u h = absurd (omega (arith, h))
drop-append (suc n) (c ∷ t) u h = drop-append n t u (omega (arith, h))

drop_nil : (n : ℕ) → drop {A = ℕ} n [] ≡ []
drop_nil zero = refl
drop_nil (suc n) = refl

pub drop_same : (m n : ℕ) (t : Text) → m ≡ n → drop m t ≡ drop n t
drop_same m n t h = ap (λ k. drop k t) h

pub drop-drop : (m n : ℕ) (t : Text) → drop (m + n) t ≡ drop n (drop m t)
drop-drop zero n t = drop_same (zero + n) n t (omega arith)
drop-drop (suc m) n [] = drop_nil (suc m + n) ∙ sym (drop_nil n)
drop-drop (suc m) n (c ∷ t) =
    drop_same (suc m + n) (suc (m + n)) (c ∷ t) (omega arith) ∙ drop-drop m n t

pub drop_all : (t : Text) → drop (length t) t ≡ []
drop_all [] = refl
drop_all (c ∷ t) = drop_all t

pub take_first : (t u : Text) → take (length t) (t ++ u) ≡ t
take_first [] u = refl
take_first (c ∷ t) u = ap (◌∷◌ c) (take_first t u)

-- a piece at its place in the text
pub record At (text : Text) (s : ℕ) (p : Text) : Type 0 where
  pub inside : s + length p ≤ length text
  pub there : drop s text ≡ p ++ drop (s + length p) text

-- pieces one after the other, from a place to another
unfoldable pub Run : Text → ℕ → List Piece → ℕ → Type 0
Run text s [] e = s ≡ e
Run text s ((p, o) ∷ ps) e = (o ≡ s) × At text s p × Run text (s + length p) ps e

unfoldable pub EachAt : Text → List Piece → Type 0
EachAt text [] = Unit
EachAt text ((p, o) ∷ ps) = At text o p × EachAt text ps

-- a piece of a piece is a piece of the text
pub At-At :
    (text part : Text) (o i : ℕ) (p : Text) → At text o part → At part i p → At text (o + i) p
At-At text part o i p h k = record {
  inside = omega (arith, h.inside, k.inside);
  there =
      let r = drop (o + length part) text in
      drop-drop o i text
      ∙ ap (drop i) h.there
      ∙ drop-append i part r (omega (arith, k.inside))
      ∙ ap (λ t. t ++ r) k.there
      ∙ append_assoc p (drop (i + length p) part) r
      ∙ ap (λ t. p ++ t)
          (sym (drop-append (i + length p) part r k.inside)
            ∙ ap (drop (i + length p)) (sym h.there)
            ∙ sym (drop-drop o (i + length p) text)
            ∙ drop_same (o + (i + length p)) (o + i + length p) text (omega arith));
}

pub slice-At : (text : Text) (s : ℕ) (p : Text) → At text s p → slice s (s + length p) text ≡ p
slice-At text s p h =
    ap (λ n. take n (drop s text)) (omega arith)
    ∙ ap (take (length p)) h.there
    ∙ take_first p (drop (s + length p) text)
