-- ===== src/Agent/Answered.antt =====
-- How the node puts its messages into the order of the calls (src/thumbelina/agent/graph.py).
use thumbelina.Prelude.{
  String, Bool, false, some, List, [], ◌∷◌, ◌++◌, map, Dict, lookup, insert, lookup-insert,
  contains, keep, eq_iff, eq_refl, if◌then◌else◌, if_known, ◌≡◌, refl, sym, ap, ◌∙◌, arith,
  Bool-cases, inl, inr,
}
use thumbelina.Subagents.Executions.{IsDistinct}
use thumbelina.ToolLoop.{ToolCall, ToolMessage, by_id}
use thumbelina.Agent.Node.{message_for, ordered}
use thumbelina.ToolLoop.Filled.{ids}

pub by_id-append :
    (xs ys : List ToolMessage) (d : Dict ToolMessage) → by_id (xs ++ ys) d ≡ by_id ys (by_id xs d)
unfolding by_id
by_id-append [] ys d = refl
by_id-append (m ∷ ms) ys d = by_id-append ms ys (insert m.tool_call_id m d)

module _ (p : ToolCall → Bool) (f : ToolCall → ToolMessage) where
  -- the messages of the calls of a choice, by the ids
  abbrev chosen : List ToolCall → Dict ToolMessage → Dict ToolMessage
  chosen calls d = by_id (map f (keep p calls)) d

  -- each call of the list finds what was there, or its message if it is chosen
  unfoldable pub Found : Dict ToolMessage → Dict ToolMessage → List ToolCall → Type 0
  Found e d [] = Unit
  Found e d (c ∷ cs) = (lookup c.id e ≡ (if p c then some (f c) else lookup c.id d)) × Found e d cs

  Found-insert :
      (e d : Dict ToolMessage) (x : String) (m : ToolMessage) (calls : List ToolCall)
      → contains (ids calls) x ≡ false
      → Found e (insert x m d) calls
      → Found e d calls
  unfolding Found
  Found-insert e d x m [] k g = tt
  Found-insert e d x m (c ∷ cs) k g = (
    g.0
        ∙ ap (λ o. if p c then some (f c) else o)
            (lookup-insert x c.id m d ∙ ground (arith, k, eq_iff x c.id, eq_iff c.id x)),
    Found-insert e d x m cs (ground (arith, k)) g.1,
  )

  module _ (h : (c : ToolCall) → (f c).tool_call_id ≡ c.id) where
    lookup-absent :
        (x : String) (calls : List ToolCall) (d : Dict ToolMessage)
        → contains (ids calls) x ≡ false
        → lookup x (chosen calls d) ≡ lookup x d
    unfolding by_id
    lookup-absent x [] d k = refl
    lookup-absent x (c ∷ cs) d k = elim (Bool-cases (p c)) [
      | inl taken ↦ rw taken (
          lookup-absent x cs (insert (f c).tool_call_id (f c) d) (ground (arith, k))
          ∙ lookup-insert (f c).tool_call_id x (f c) d
          ∙ ground (arith, k, h c))
      | inr left ↦ rw left (lookup-absent x cs d (ground (arith, k)))
    ]

    pub chosen-Found :
        (calls : List ToolCall) (d : Dict ToolMessage)
        → IsDistinct (ids calls)
        → Found (chosen calls d) d calls
    unfolding Found IsDistinct by_id
    chosen-Found [] d k = tt
    chosen-Found (c ∷ cs) d k =
        if_known (λ (l : List ToolCall). Found (by_id (map f l) d) d (c ∷ cs)) (p c)
          (λ taken. (
            lookup-absent c.id cs (insert (f c).tool_call_id (f c) d) k.0
                ∙ lookup-insert (f c).tool_call_id c.id (f c) d
                ∙ ground (arith, taken, h c, eq_refl c.id),
            Found-insert (chosen cs (insert (f c).tool_call_id (f c) d)) d (f c).tool_call_id (f c)
                cs (ap (contains (ids cs)) (h c) ∙ k.0)
                (chosen-Found cs (insert (f c).tool_call_id (f c) d) k.1),
          ))
          (λ left. (
            lookup-absent c.id cs d k.0
                ∙ sym (ap (λ b. if b then some (f c) else lookup c.id d) left),
            chosen-Found cs d k.1,
          ))

module _ (decide_one : ToolCall → ToolMessage) (e d : Dict ToolMessage) where
  -- what each call finds is its message, in one of the two dicts
  unfoldable pub Answers : List ToolCall → Type 0
  Answers [] = Unit
  Answers (c ∷ cs) = (message_for (lookup c.id e) (lookup c.id d) ≡ decide_one c ∷ []) × Answers cs

  pub ordered-Answers :
      (calls : List ToolCall) → Answers calls → ordered e d calls ≡ map decide_one calls
  unfolding Answers ordered
  ordered-Answers [] h = refl
  ordered-Answers (c ∷ cs) h = rw h.0 (ap (◌∷◌ (decide_one c)) (ordered-Answers cs h.1))
