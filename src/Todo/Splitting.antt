-- ===== src/Todo/Splitting.antt =====
-- Splitting a text into its lines (src/thumbelina/todo/parser.py).
use thumbelina.Prelude.{
  ℕ, Bool, true, false, not, ◌&&◌, ◌||◌, List, [], ◌∷◌, ◌++◌, ◌==◌, ◌≡◌, refl, ap, ◌∙◌, arith,
  Bool-cases, inl, inr,
}
use thumbelina.Rag.Texts.{Text}
use thumbelina.Todo.{line_feed, on_first, splitlines}

module _ (is_break : ℕ → Bool) (strip : Text → Text) where
  abbrev pub breaks : ℕ → Bool
  breaks c = (c == line_feed) || is_break c

  -- no character at which a line ends
  unfoldable pub is_unbroken : Text → Bool
  is_unbroken [] = true
  is_unbroken (c ∷ t) = not (breaks c) && is_unbroken t

  -- the last character, if there is one, ends no line
  unfoldable pub ends_plain : Text → Bool
  ends_plain [] = false
  ends_plain (c ∷ []) = not (breaks c)
  ends_plain (c ∷ d ∷ t) = ends_plain (d ∷ t)

  pub splitlines-line :
      (l r : Text)
      → is_unbroken l ≡ true
      → splitlines is_break strip (l ++ line_feed ∷ r) ≡ l ∷ splitlines is_break strip r
  unfolding is_unbroken splitlines
  splitlines-line [] r h = refl
  splitlines-line (c ∷ l) r h = elim (Bool-cases (breaks c)) [
    | inl ends ↦ absurd (ground (arith, ends, h))
    | inr plain ↦ rw (plain, splitlines-line l r (ground (arith, h))) refl
  ]

  pub splitlines_one :
      (c : ℕ) (l : Text)
      → is_unbroken (c ∷ l) ≡ true
      → splitlines is_break strip (c ∷ l) ≡ (c ∷ l) ∷ []
  unfolding is_unbroken splitlines
  splitlines_one c [] h = elim (Bool-cases (breaks c)) [
    | inl ends ↦ absurd (ground (arith, ends, h))
    | inr plain ↦ rw plain refl
  ]
  splitlines_one c (d ∷ l) h = elim (Bool-cases (breaks c)) [
    | inl ends ↦ absurd (ground (arith, ends, h))
    | inr plain ↦ rw (plain, splitlines_one d l (ground (arith, h))) refl
  ]

  on_first-append :
      (c : ℕ) (d : ℕ) (t : Text) (ls : List Text)
      → on_first is_break strip c (splitlines is_break strip (d ∷ t) ++ ls)
        ≡ on_first is_break strip c (splitlines is_break strip (d ∷ t)) ++ ls
  unfolding splitlines
  on_first-append c d t ls = elim (Bool-cases (breaks d)) [
    | inl ends ↦ rw ends refl
    | inr plain ↦ rw plain (two (splitlines is_break strip t))
  ]
    where
      two :
          (ms : List Text)
          → on_first is_break strip c (on_first is_break strip d ms ++ ls)
            ≡ on_first is_break strip c (on_first is_break strip d ms) ++ ls
      two [] = refl
      two (m ∷ ms) = refl

  pub splitlines-append :
      (r t : Text)
      → ends_plain r ≡ true
      → splitlines is_break strip (r ++ line_feed ∷ t)
        ≡ splitlines is_break strip r ++ splitlines is_break strip t
  unfolding ends_plain splitlines
  splitlines-append [] t h = cc
  splitlines-append (c ∷ []) t h = elim (Bool-cases (breaks c)) [
    | inl ends ↦ absurd (ground (arith, ends, h))
    | inr plain ↦ rw plain refl
  ]
  splitlines-append (c ∷ d ∷ r) t h = elim (Bool-cases (breaks c)) [
    | inl ends ↦ rw ends (ap (λ ls. [] ∷ ls) (splitlines-append (d ∷ r) t h))
    | inr plain ↦ rw plain (
        ap (on_first is_break strip c) (splitlines-append (d ∷ r) t h)
        ∙ on_first-append c d r (splitlines is_break strip t))
  ]

  pub ends_plain-append :
      (r t : Text) → ends_plain t ≡ true → ends_plain (r ++ line_feed ∷ t) ≡ true
  unfolding ends_plain
  ends_plain-append [] [] h = cc
  ends_plain-append [] (c ∷ t) h = h
  ends_plain-append (c ∷ []) t h = ends_plain-append [] t h
  ends_plain-append (c ∷ d ∷ r) t h = ends_plain-append (d ∷ r) t h

  pub is_unbroken-ends_plain :
      (c : ℕ) (t : Text) → is_unbroken (c ∷ t) ≡ true → ends_plain (c ∷ t) ≡ true
  unfolding ends_plain is_unbroken
  is_unbroken-ends_plain c [] h = ground (arith, h)
  is_unbroken-ends_plain c (d ∷ t) h = is_unbroken-ends_plain d t (ground (arith, h))
