-- ===== src/ToolLoop/Gathered.antt =====
-- What `tool_node` gives (src/thumbelina/agent/nodes.py).
use thumbelina.Prelude.{
  Bool, true, false, ◌||◌, none, some, List, [], ◌∷◌, map, if◌then◌else◌, ◌≡◌, refl, ap, ◌∙◌, arith,
  Bool-cases, inl, inr,
}
use thumbelina.ToolLoop.{
  ToolCall, Tools, Invocation, returned, ran_out, raised, unformatted, raises, message_of,
  invoke_one, put_first, gather, tool_node,
}

-- some call raises
unfoldable pub any_raises : Tools → List ToolCall → Bool
any_raises tools [] = false
any_raises tools (tc ∷ tcs) = raises tools tc || any_raises tools tcs

pub tool_node-message_of :
    (tools : Tools) (calls : List ToolCall)
    → tool_node tools calls
      ≡ (if any_raises tools calls then none else some (map (message_of tools) calls))
unfolding tool_node any_raises invoke_one gather
tool_node-message_of tools [] = refl
tool_node-message_of tools (tc ∷ tcs) = elim (Bool-cases (raises tools tc)) [
  | inl h ↦ rw h refl
  | inr h ↦ elim (Bool-cases (any_raises tools tcs)) [
    | inl later ↦
        let ih : tool_node tools tcs ≡ none =
          tool_node-message_of tools tcs
          ∙ ap (λ b. if b then none else some (map (message_of tools) tcs)) later in
        rw (h, later) (ap (put_first (message_of tools tc)) ih)
    | inr never ↦
        let ih : tool_node tools tcs ≡ some (map (message_of tools) tcs) =
          tool_node-message_of tools tcs
          ∙ ap (λ b. if b then none else some (map (message_of tools) tcs)) never in
        rw (h, never) (ap (put_first (message_of tools tc)) ih)
  ]
]

unformatted-timeout : (b : Bool) (i : Invocation) → unformatted b i ≡ true → b ≡ false
unformatted-timeout false i h = refl
unformatted-timeout true (returned r) h = cc
unformatted-timeout true ran_out h = cc
unformatted-timeout true (raised e) h = cc

-- with a timeout no call raises
pub any_raises-has_timeout :
    (tools : Tools) (calls : List ToolCall)
    → any_raises tools calls ≡ true
    → tools.has_timeout ≡ false
unfolding any_raises raises
any_raises-has_timeout tools [] h = cc
any_raises-has_timeout tools (tc ∷ tcs) h =
    elim (Bool-cases (unformatted tools.has_timeout (tools.invoke tc))) [
      | inl e ↦ unformatted-timeout tools.has_timeout (tools.invoke tc) e
      | inr e ↦ any_raises-has_timeout tools tcs (ground (arith, e, h))
    ]
