-- ===== src/Rag/Texts.antt =====
-- Texts by their code points, as the chunkers read them (src/thumbelina/rag/ingestion/chunker.py).
use thumbelina.Prelude.{
  ℕ, suc, ◌-◌, Bool, true, false, ◌&&◌, Option, none, some, List, [], ◌∷◌, ◌++◌, take, drop, ◌==◌,
  if◌then◌else◌,
}

abbrev pub Text : Type 0
Text = List ℕ

-- `not text`
abbrev pub is_empty {ℓ} : {A : Type ℓ} → List A → Bool
is_empty [] = true
is_empty (x ∷ xs) = false

-- `text[start:end]`
abbrev pub slice : ℕ → ℕ → Text → Text
slice start end text = take (end - start) (drop start text)

-- `text.startswith(s)`
unfoldable pub starts_with : Text → Text → Bool
starts_with [] text = true
starts_with (c ∷ s) [] = false
starts_with (c ∷ s) (d ∷ text) = (c == d) && starts_with s text

abbrev pub next_index : Option ℕ → Option ℕ
next_index none = none
next_index (some i) = some (suc i)

-- `text.find(s)`, where -1 is none
unfoldable pub find : Text → Text → Option ℕ
find s [] = if is_empty s then some 0 else none
find s (c ∷ text) =
    let rest = find s text in if starts_with s (c ∷ text) then some 0 else next_index rest

-- `"".join(parts)`
unfoldable pub join : List Text → Text
join [] = []
join (t ∷ ts) = t ++ join ts

-- every character is white space: `not text.strip()`
unfoldable pub is_blank : (ℕ → Bool) → Text → Bool
is_blank is_space [] = true
is_blank is_space (c ∷ text) = is_space c && is_blank is_space text
