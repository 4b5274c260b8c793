-- ===== src/Compression/Examples.antt =====
-- A conversation that the sliding window shortens
-- (src/thumbelina/agent/compression/sliding_window.py).
use thumbelina.Prelude.{
  ℕ, suc, ◌-◌, ◌≤◌, ◌<◌, Bool, true, false, some, refl, List, [], ◌∷◌, ◌++◌, ◌≡◌, ◌⊎◌, length, drop,
}
use thumbelina.Compression.Messages.{Message, Content, estimate_messages_tokens}
use thumbelina.Compression.Units.{flatten_units}
use thumbelina.Compression.Window.{low_target, compress, head_units, tail_units}
use thumbelina.Compression.Pairing.{ensure_tool_pairing, declared_ids}
use thumbelina.Compression.Repaired.{is_paired, accepts_from, accepts_begin}
use thumbelina.Compression.Untouched.{others, ensure_tool_pairing-is_paired}
use thumbelina.Compression.Kept.{compress_lem}

abbrev conversation : List Message
conversation =
    Message.system (Content.text "You are Thumbelina.")
    ∷ Message.human (Content.text "What is the weather like today?")
    ∷ Message.human (Content.text "And tomorrow?")
    ∷ []

abbrev no_wide : ℕ → Bool
no_wide c = false

compress_lem_example :
    (n : ℕ) × (compress no_wide conversation 10
      ≡ flatten_units (head_units conversation ++ drop n (tail_units conversation)))
    × (n ≤ length (tail_units conversation) - 1)
    × ((estimate_messages_tokens no_wide (compress no_wide conversation 10) ≤ low_target 10)
        ⊎ (length (tail_units conversation) ≤ suc n))
    × ((k : ℕ)
        → k < n
        → low_target 10
          < estimate_messages_tokens no_wide
              (flatten_units (head_units conversation ++ drop k (tail_units conversation))))
compress_lem_example = compress_lem no_wide conversation 10

-- a turn whose second call was interrupted, after an orphan tool message
abbrev interrupted : List Message
interrupted =
    Message.tool (Content.text "lost") "z"
    ∷ Message.ai (record {
      content = Content.text "";
      tool_calls = some "a" ∷ some "b" ∷ [];
      invalid_tool_calls = [];
      additional_tool_calls = [];
    })
    ∷ Message.tool (Content.text "done") "a"
    ∷ Message.human (Content.text "go on")
    ∷ []

ensure_tool_pairing-is_paired_example :
    (is_paired (ensure_tool_pairing interrupted) ≡ true)
    × (others (ensure_tool_pairing interrupted) ≡ others interrupted)
ensure_tool_pairing-is_paired_example = ensure_tool_pairing-is_paired interrupted

conversation_paired : is_paired conversation ≡ true
unfolding is_paired accepts_from accepts_begin declared_ids
conversation_paired = refl
