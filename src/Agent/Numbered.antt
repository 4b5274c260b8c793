-- ===== src/Agent/Numbered.antt =====
-- Sorting the indices that the gate lets pass gives the calls in their order
-- (src/thumbelina/agent/graph.py).
use thumbelina.Prelude.{
  ℕ, suc, ◌≤◌, Bool, true, false, ◌&&◌, ◌||◌, List, [], ◌∷◌, ◌++◌, map, leb, keep, if_both, ◌≡◌,
  refl, ap, ◌∙◌, arith, Bool-cases, inl, inr,
}
use thumbelina.ToolLoop.{ToolCall}
use thumbelina.Agent.Gate.{numbered, insert_index, sort_indices, at_call}

-- every index is at least so large
unfoldable pub Above : ℕ → List (ℕ × ToolCall) → Type 0
Above i [] = Unit
Above i (e ∷ es) = (i ≤ e.0) × Above i es

insert_index-Above :
    (i : ℕ) (e : ℕ × ToolCall) (l : List (ℕ × ToolCall))
    → i ≤ e.0
    → Above i l
    → Above i (insert_index e l)
unfolding Above insert_index
insert_index-Above i e [] h k = (h, tt)
insert_index-Above i e (f ∷ fs) h k =
    if_both (Above i) (leb e.0 f.0) (h, k) (k.0, insert_index-Above i e fs h k.1)

sort_indices-Above : (i : ℕ) (l : List (ℕ × ToolCall)) → Above i l → Above i (sort_indices l)
unfolding Above sort_indices
sort_indices-Above i [] h = tt
sort_indices-Above i (e ∷ es) h =
    insert_index-Above i e (sort_indices es) h.0 (sort_indices-Above i es h.1)

insert_index-below :
    (e : ℕ × ToolCall) (l : List (ℕ × ToolCall)) → Above e.0 l → insert_index e l ≡ e ∷ l
unfolding Above insert_index
insert_index-below e [] h = refl
insert_index-below e (f ∷ fs) h = ground (arith, h.0)

-- an entry below all before and after it comes first
sort_middle :
    (e : ℕ × ToolCall) (ls rs : List (ℕ × ToolCall))
    → Above (suc e.0) ls
    → Above (suc e.0) rs
    → sort_indices (ls ++ e ∷ rs) ≡ e ∷ sort_indices (ls ++ rs)
unfolding Above sort_indices insert_index
sort_middle e [] rs h k =
    insert_index-below e (sort_indices rs) (sort_indices-Above e.0 rs (weaken e.0 rs k))
  where
    weaken : (i : ℕ) (l : List (ℕ × ToolCall)) → Above (suc i) l → Above i l
    weaken i [] h = tt
    weaken i (f ∷ fs) h = (omega (arith, h.0), weaken i fs h.1)
sort_middle e (a ∷ ls) rs h k =
    ap (insert_index a) (sort_middle e ls rs h.1 k) ∙ ground (arith, h.0)

keep-Above :
    (i j : ℕ) (p : ToolCall → Bool) (cs : List ToolCall)
    → i ≤ j
    → Above i (keep (at_call p) (numbered j cs))
unfolding Above numbered
keep-Above i j p [] h = tt
keep-Above i j p (c ∷ cs) h =
    if_both (Above i) (p c) (h, keep-Above i (suc j) p cs (omega (arith, h)))
      (keep-Above i (suc j) p cs (omega (arith, h)))

-- two choices that exclude each other, put together and sorted, are the choice of either
pub sort_either :
    (p q : ToolCall → Bool) (i : ℕ) (cs : List ToolCall)
    → ((c : ToolCall) → p c ≡ true → q c ≡ false)
    → sort_indices (keep (at_call p) (numbered i cs) ++ keep (at_call q) (numbered i cs))
      ≡ keep (at_call (λ c. p c || q c)) (numbered i cs)
unfolding numbered sort_indices
sort_either p q i [] h = refl
sort_either p q i (c ∷ cs) h = elim (Bool-cases (p c)) [
  | inl chosen ↦
      rw (chosen, h c chosen)
        (ap (insert_index (i, c)) (sort_either p q (suc i) cs h)
          ∙ insert_index-below (i, c) (keep (at_call (λ d. p d || q d)) (numbered (suc i) cs))
              (keep-Above i (suc i) (λ d. p d || q d) cs (omega arith)))
  | inr left ↦ elim (Bool-cases (q c)) [
    | inl chosen ↦
        rw (left, chosen)
          (sort_middle (i, c) (keep (at_call p) (numbered (suc i) cs))
              (keep (at_call q) (numbered (suc i) cs))
              (keep-Above (suc i) (suc i) p cs (omega arith))
              (keep-Above (suc i) (suc i) q cs (omega arith))
            ∙ ap (◌∷◌ (i, c)) (sort_either p q (suc i) cs h))
    | inr neither ↦ rw (left, neither) (sort_either p q (suc i) cs h)
  ]
]

-- the calls of a choice among the numbered calls
pub calls_of-keep {ℓ} :
    {B : Type ℓ} (f : ToolCall → B) (p : ToolCall → Bool) (i : ℕ) (cs : List ToolCall)
    → map (λ e. f e.1) (keep (at_call p) (numbered i cs)) ≡ map f (keep p cs)
unfolding numbered
calls_of-keep f p i [] = refl
calls_of-keep f p i (c ∷ cs) = elim (Bool-cases (p c)) [
  | inl chosen ↦ rw chosen (ap (◌∷◌ (f c)) (calls_of-keep f p (suc i) cs))
  | inr left ↦ rw left (calls_of-keep f p (suc i) cs)
]

pub keep-keep :
    (p q : ToolCall → Bool) (i : ℕ) (cs : List ToolCall)
    → keep (at_call q) (keep (at_call p) (numbered i cs))
      ≡ keep (at_call (λ c. p c && q c)) (numbered i cs)
unfolding numbered
keep-keep p q i [] = refl
keep-keep p q i (c ∷ cs) = elim (Bool-cases (p c)) [
  | inl chosen ↦ elim (Bool-cases (q c)) [
    | inl also ↦ rw (chosen, also) (ap (◌∷◌ (i, c)) (keep-keep p q (suc i) cs))
    | inr not_also ↦ rw (chosen, not_also) (keep-keep p q (suc i) cs)
  ]
  | inr left ↦ rw left (keep-keep p q (suc i) cs)
]

pub map_id : (l : List ToolCall) → map (λ c. c) l ≡ l
map_id [] = refl
map_id (c ∷ cs) = ap (◌∷◌ c) (map_id cs)
