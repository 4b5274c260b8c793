-- ===== src/Permissions/Spelled.antt =====
-- The segments of paths that differ in the case of letters and in their slashes
-- (`_segments` of src/thumbelina/tools/permissions.py).
use thumbelina.Prelude.{
  ℕ, ◌+◌, ◌≤◌, true, false, ◌&&◌, ◌==◌, ltb, leb, List, [], ◌∷◌, ◌++◌, drop, length, append_assoc,
  if◌then◌else◌, ◌⊎◌, ◌≡◌, refl, sym, ap, ◌∙◌, arith, Bool-cases, inl, inr,
}
use thumbelina.Permissions.Paths.{
  PathContext, to_posix, to_lower, push, segments_from, segments, codes_eq, parts_start,
  ends_in_slash,
}

-- a slash or a backslash
abbrev pub IsSlash : ℕ → Type 0
IsSlash c = (c ≡ 47) ⊎ (c ≡ 92)

-- the first character is the capital letter of the second
abbrev pub IsCapital : ℕ → ℕ → Type 0
IsCapital c d = (65 ≤ c) × (c ≤ 90) × (d ≡ c + 32)

-- the same text up to the case of its ASCII letters and the kind of its slashes
unfoldable pub Spells : List ℕ → List ℕ → Type 0
Spells [] [] = Unit
Spells [] (d ∷ ds) = ⊥
Spells (c ∷ cs) [] = ⊥
Spells (c ∷ cs) (d ∷ ds) =
    ((c ≡ d) ⊎ IsCapital c d ⊎ IsCapital d c ⊎ (IsSlash c × IsSlash d)) × Spells cs ds

module _ (wide : ℕ → List ℕ) where
  -- the text that is split
  abbrev folded : List ℕ → List ℕ
  folded s = to_lower wide (to_posix s)

  abbrev folded_one : ℕ → List ℕ
  folded_one c =
      let d = if c == 92 then 47 else c in
      if ltb d 128 then (if leb 65 d && leb d 90 then d + 32 else d) ∷ [] else wide d

  folded-append : (s t : List ℕ) → folded (s ++ t) ≡ folded s ++ folded t
  unfolding to_lower to_posix
  folded-append [] t = refl
  folded-append (c ∷ s) t =
      ap (λ l. folded_one c ++ l) (folded-append s t)
      ∙ sym (append_assoc (folded_one c) (folded s) (folded t))

  folded_slash : (c : ℕ) (s : List ℕ) → IsSlash c → folded (c ∷ s) ≡ 47 ∷ folded s
  unfolding to_lower to_posix
  folded_slash c s (inl e) = rw e refl
  folded_slash c s (inr e) = rw e refl

  folded_capital : (c d : ℕ) (s : List ℕ) → IsCapital c d → folded (c ∷ s) ≡ d ∷ folded s
  unfolding to_lower to_posix
  folded_capital c d s (l, u, e) =
      let narrow : ltb c 128 ≡ true = ground (arith, u) in
      let not_slash : (c == 92) ≡ false = ground (arith, u) in
      let low : leb 65 c ≡ true = ground (arith, l) in
      let high : leb c 90 ≡ true = ground (arith, u) in rw (not_slash, narrow, low, high, e) refl

  folded_small : (c d : ℕ) (s : List ℕ) → IsCapital c d → folded (d ∷ s) ≡ d ∷ folded s
  unfolding to_lower to_posix
  folded_small c d s (l, u, e) =
      let narrow : ltb d 128 ≡ true = ground (arith, u, e) in
      let not_slash : (d == 92) ≡ false = ground (arith, l, e) in
      let high : leb d 90 ≡ false = ground (arith, l, e) in
      rw (not_slash, narrow, high) ground arith

  Spells-folded : (s t : List ℕ) → Spells s t → folded s ≡ folded t
  unfolding Spells
  Spells-folded [] [] h = refl
  Spells-folded [] (d ∷ t) h = absurd h
  Spells-folded (c ∷ s) [] h = absurd h
  Spells-folded (c ∷ s) (d ∷ t) (inl e, h) =
      folded-append (c ∷ []) s
      ∙ ap (λ l. folded (c ∷ []) ++ l) (Spells-folded s t h)
      ∙ sym (folded-append (c ∷ []) t)
      ∙ ap (λ k. folded (k ∷ t)) e
  Spells-folded (c ∷ s) (d ∷ t) (inr (inl k), h) =
      folded_capital c d s k ∙ ap (◌∷◌ d) (Spells-folded s t h) ∙ sym (folded_small c d t k)
  Spells-folded (c ∷ s) (d ∷ t) (inr (inr (inl k)), h) =
      folded_small d c s k ∙ ap (◌∷◌ c) (Spells-folded s t h) ∙ sym (folded_capital d c t k)
  Spells-folded (c ∷ s) (d ∷ t) (inr (inr (inr (k, l))), h) =
      folded_slash c s k ∙ ap (◌∷◌ 47) (Spells-folded s t h) ∙ sym (folded_slash d t l)

push-append : (seen : List ℕ) (a b : List (List ℕ)) → push seen (a ++ b) ≡ push seen a ++ b
push-append [] a b = refl
push-append (c ∷ seen) a b = refl

segments_from-append :
    (seen s t : List ℕ)
    → segments_from seen (s ++ 47 ∷ t) ≡ segments_from seen s ++ segments_from [] t
unfolding segments_from
segments_from-append [] [] t = refl
segments_from-append (c ∷ seen) [] t = refl
segments_from-append seen (c ∷ s) t = elim (Bool-cases (c == 47)) [
  | inl e ↦ rw e (
      ap (push seen) (segments_from-append [] s t)
      ∙ push-append seen (segments_from [] s) (segments_from [] t))
  | inr e ↦ rw e (segments_from-append (seen ++ c ∷ []) s t)
]

-- what a slash takes apart
pub segments-slash :
    (x : PathContext) (s t : List ℕ) (c : ℕ)
    → IsSlash c
    → segments x (s ++ c ∷ t) ≡ segments x s ++ segments x t
unfolding segments
segments-slash x s t c h =
    ap (segments_from []) (
      folded-append x.lower_wide s (c ∷ t)
      ∙ ap (λ l. folded x.lower_wide s ++ l) (folded_slash x.lower_wide c t h))
    ∙ segments_from-append [] (folded x.lower_wide s) (folded x.lower_wide t)

pub Spells-segments : (x : PathContext) (s t : List ℕ) → Spells s t → segments x s ≡ segments x t
unfolding segments
Spells-segments x s t h = ap (segments_from []) (Spells-folded x.lower_wide s t h)

codes_eq_refl : (s : List ℕ) → codes_eq s s ≡ true
codes_eq_refl [] = refl
codes_eq_refl (c ∷ s) = ground (arith, codes_eq_refl s)

pub parts_start-append : (a b : List (List ℕ)) → parts_start (a ++ b) a ≡ true
unfolding parts_start
parts_start-append [] b = refl
parts_start-append (p ∷ a) b = rw (codes_eq_refl p) (parts_start-append a b)

pub drop-append : (a b : List (List ℕ)) → drop (length a) (a ++ b) ≡ b
drop-append [] b = refl
drop-append (p ∷ a) b = drop-append a b

pub ends_in_slash-append : (s : List ℕ) → ends_in_slash (s ++ 47 ∷ []) ≡ true
unfolding ends_in_slash
ends_in_slash-append [] = refl
ends_in_slash-append (c ∷ []) = refl
ends_in_slash-append (c ∷ d ∷ s) = ends_in_slash-append (d ∷ s)
