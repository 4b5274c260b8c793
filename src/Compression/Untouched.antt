-- ===== src/Compression/Untouched.antt =====
-- What the repair of tool pairing leaves alone (`ensure_tool_pairing` of
-- src/thumbelina/agent/compression/base.py).
use mathlib.Core.Path.{subst}
use thumbelina.Prelude.{
  String, Bool, true, false, not, ◌&&◌, none, some, List, [], ◌∷◌, ◌≡◌, refl, ap, ◌∙◌, arith,
  contains, keep, if_known, if_both,
}
use thumbelina.Compression.Messages.{Message}
use thumbelina.Compression.Pairing.{
  Repair, Turn, declared_ids, is_tool, fill, begin_turn, answer_turn, repair_from,
  ensure_tool_pairing,
}
use thumbelina.Compression.Repaired.{
  all_in, accepts_begin, accepts_answer, accepts_from, is_paired, repair_from-accepts, Repairs,
}

fill-unchanged :
    (ids answered : List String) (r : Repair)
    → (fill ids answered r).1 ≡ false
    → (fill ids answered r).0 ≡ r.0
unfolding fill
fill-unchanged [] answered r h = refl
fill-unchanged (id ∷ ids) answered r h = ground (arith, fill-unchanged ids answered r)

fill-changed :
    (ids answered : List String) (r : Repair) → (fill ids answered r).1 ≡ false → r.1 ≡ false
unfolding fill
fill-changed [] answered r h = h
fill-changed (id ∷ ids) answered r h = ground (arith, fill-changed ids answered r)

fill-all_in :
    (ids answered : List String) (r : Repair)
    → all_in ids answered ≡ true
    → (fill ids answered r).1 ≡ r.1
unfolding fill all_in
fill-all_in [] answered r h = refl
fill-all_in (id ∷ ids) answered r h = ground (arith, fill-all_in ids answered r)

-- a pass that reports no change returns its input
Unchanged : (Turn → Repair) → List Message → Type 0
Unchanged repair ms = (o : Turn) → (repair o).1 ≡ false → (repair o).0 ≡ ms

begin_turn-Unchanged :
    (repair : Turn → Repair) (m : Message) (ds : List String) (ms : List Message)
    → Unchanged repair ms
    → (begin_turn repair m ds).1 ≡ false
    → (begin_turn repair m ds).0 ≡ m ∷ ms
unfolding begin_turn Unchanged
begin_turn-Unchanged repair m (d ∷ ds) ms h e = ap (◌∷◌ m) (h (some (d ∷ ds, [])) e)
begin_turn-Unchanged repair m [] ms h e = ground (arith, h none)

fill-Unchanged :
    (repair : Turn → Repair) (ids answered : List String) (m : Message) (ms : List Message)
    → Unchanged repair ms
    → (fill ids answered (begin_turn repair m (declared_ids m))).1 ≡ false
    → (fill ids answered (begin_turn repair m (declared_ids m))).0 ≡ m ∷ ms
fill-Unchanged repair ids answered m ms h e =
    let r = begin_turn repair m (declared_ids m) in
    fill-unchanged ids answered r e
    ∙ begin_turn-Unchanged repair m (declared_ids m) ms h (fill-changed ids answered r e)

answer_turn-Unchanged :
    (repair : Turn → Repair) (ids answered : List String) (m : Message) (ms : List Message)
    → Unchanged repair ms
    → (answer_turn repair ids answered m).1 ≡ false
    → (answer_turn repair ids answered m).0 ≡ m ∷ ms
unfolding answer_turn Unchanged
answer_turn-Unchanged repair ids answered (Message.tool c id) ms h e =
    ground (arith, h (some (ids, id ∷ answered)))
answer_turn-Unchanged repair ids answered (Message.system c) ms h e =
    fill-Unchanged repair ids answered (Message.system c) ms h e
answer_turn-Unchanged repair ids answered (Message.human c) ms h e =
    fill-Unchanged repair ids answered (Message.human c) ms h e
answer_turn-Unchanged repair ids answered (Message.ai a) ms h e =
    fill-Unchanged repair ids answered (Message.ai a) ms h e

repair_from-Unchanged : (ms : List Message) → Unchanged (repair_from ms) ms
unfolding repair_from Unchanged
repair_from-Unchanged [] none e = refl
repair_from-Unchanged [] (some (ids, answered)) e = fill-unchanged ids answered ([], false) e
repair_from-Unchanged (m ∷ ms) none e =
    begin_turn-Unchanged (repair_from ms) m (declared_ids m) ms (repair_from-Unchanged ms) e
repair_from-Unchanged (m ∷ ms) (some (ids, answered)) e =
    answer_turn-Unchanged (repair_from ms) ids answered m ms (repair_from-Unchanged ms) e

-- an accepted sequence is reported unchanged
Quiet : (Turn → Repair) → (Turn → Bool) → Type 0
Quiet repair accepts = (o : Turn) → accepts o ≡ true → (repair o).1 ≡ false

begin_turn-Quiet :
    (repair : Turn → Repair) (accepts : Turn → Bool) (m : Message) (ds : List String)
    → Quiet repair accepts
    → accepts_begin accepts m ds ≡ true
    → (begin_turn repair m ds).1 ≡ false
unfolding begin_turn accepts_begin Quiet
begin_turn-Quiet repair accepts m (d ∷ ds) h e = h (some (d ∷ ds, [])) e
begin_turn-Quiet repair accepts m [] h e = ground (arith, h none)

fill-Quiet :
    (repair : Turn → Repair) (accepts : Turn → Bool) (ids answered : List String) (m : Message)
    → Quiet repair accepts
    → (all_in ids answered && accepts_begin accepts m (declared_ids m)) ≡ true
    → (fill ids answered (begin_turn repair m (declared_ids m))).1 ≡ false
fill-Quiet repair accepts ids answered m h e =
    fill-all_in ids answered (begin_turn repair m (declared_ids m)) (ground (arith, e))
    ∙ begin_turn-Quiet repair accepts m (declared_ids m) h (ground (arith, e))

answer_turn-Quiet :
    (repair : Turn → Repair) (accepts : Turn → Bool) (ids answered : List String) (m : Message)
    → Quiet repair accepts
    → accepts_answer accepts ids answered m ≡ true
    → (answer_turn repair ids answered m).1 ≡ false
unfolding answer_turn accepts_answer Quiet
answer_turn-Quiet repair accepts ids answered (Message.tool c id) h e =
    ground (arith, h (some (ids, id ∷ answered)))
answer_turn-Quiet repair accepts ids answered (Message.system c) h e =
    fill-Quiet repair accepts ids answered (Message.system c) h e
answer_turn-Quiet repair accepts ids answered (Message.human c) h e =
    fill-Quiet repair accepts ids answered (Message.human c) h e
answer_turn-Quiet repair accepts ids answered (Message.ai a) h e =
    fill-Quiet repair accepts ids answered (Message.ai a) h e

repair_from-Quiet : (ms : List Message) → Quiet (repair_from ms) (accepts_from ms)
unfolding repair_from accepts_from Quiet
repair_from-Quiet [] none e = refl
repair_from-Quiet [] (some (ids, answered)) e = fill-all_in ids answered ([], false) e
repair_from-Quiet (m ∷ ms) none e =
    begin_turn-Quiet (repair_from ms) (accepts_from ms) m (declared_ids m) (repair_from-Quiet ms) e
repair_from-Quiet (m ∷ ms) (some (ids, answered)) e =
    answer_turn-Quiet (repair_from ms) (accepts_from ms) ids answered m (repair_from-Quiet ms) e

-- the messages other than tool messages
pub others : List Message → List Message
others ms = keep (λ m. not (is_tool m)) ms

fill-others :
    (ids answered : List String) (r : Repair) → others ((fill ids answered r).0) ≡ others (r.0)
unfolding fill others
fill-others [] answered r = refl
fill-others (id ∷ ids) answered r =
    if_both (λ (x : Repair). others (x.0) ≡ others (r.0)) (contains answered id)
      (fill-others ids answered r) (fill-others ids answered r)

begin_turn-others :
    (repair : Turn → Repair) (m : Message) (ds : List String) (ms : List Message)
    → ((o : Turn) → others ((repair o).0) ≡ others ms)
    → others ((begin_turn repair m ds).0) ≡ others (m ∷ ms)
unfolding begin_turn others
begin_turn-others repair m (d ∷ ds) ms h = ground (arith, h (some (d ∷ ds, [])))
begin_turn-others repair m [] ms h = ground (arith, h none)

fill-begin_turn-others :
    (repair : Turn → Repair) (ids answered : List String) (m : Message) (ms : List Message)
    → ((o : Turn) → others ((repair o).0) ≡ others ms)
    → others ((fill ids answered (begin_turn repair m (declared_ids m))).0) ≡ others (m ∷ ms)
fill-begin_turn-others repair ids answered m ms h =
    fill-others ids answered (begin_turn repair m (declared_ids m))
    ∙ begin_turn-others repair m (declared_ids m) ms h

answer_turn-others :
    (repair : Turn → Repair) (ids answered : List String) (m : Message) (ms : List Message)
    → ((o : Turn) → others ((repair o).0) ≡ others ms)
    → others ((answer_turn repair ids answered m).0) ≡ others (m ∷ ms)
unfolding answer_turn others
answer_turn-others repair ids answered (Message.tool c id) ms h =
    if_both (λ (x : Repair). others (x.0) ≡ others ms) (contains ids id)
      (h (some (ids, id ∷ answered))) (h (some (ids, answered)))
answer_turn-others repair ids answered (Message.system c) ms h =
    fill-begin_turn-others repair ids answered (Message.system c) ms h
answer_turn-others repair ids answered (Message.human c) ms h =
    fill-begin_turn-others repair ids answered (Message.human c) ms h
answer_turn-others repair ids answered (Message.ai a) ms h =
    fill-begin_turn-others repair ids answered (Message.ai a) ms h

repair_from-others : (ms : List Message) (o : Turn) → others ((repair_from ms o).0) ≡ others ms
unfolding repair_from
repair_from-others [] none = refl
repair_from-others [] (some (ids, answered)) = fill-others ids answered ([], false)
repair_from-others (m ∷ ms) none =
    begin_turn-others (repair_from ms) m (declared_ids m) ms (repair_from-others ms)
repair_from-others (m ∷ ms) (some (ids, answered)) =
    answer_turn-others (repair_from ms) ids answered m ms (repair_from-others ms)

-- The repaired sequence meets the rule of the endpoints, and its messages other than tool messages
-- are those of the given sequence in their order.
pub ensure_tool_pairing-is_paired :
    (messages : List Message)
    → (is_paired (ensure_tool_pairing messages) ≡ true)
      × (others (ensure_tool_pairing messages) ≡ others messages)
unfolding ensure_tool_pairing is_paired Repairs Unchanged
ensure_tool_pairing-is_paired messages =
    if_known (λ ms. (is_paired ms ≡ true) × (others ms ≡ others messages))
      (not ((repair_from messages none).1))
      (λ h. (
        subst (λ ms. is_paired ms ≡ true) (repair_from-Unchanged messages none (ground (arith, h)))
            (repair_from-accepts messages none),
        refl,
      ))
      (λ h. (repair_from-accepts messages none, repair_from-others messages none))

-- A sequence that meets the rule of the endpoints is returned as it is, so that a second repair
-- changes nothing.
pub ensure_tool_pairing-paired :
    (messages : List Message) → is_paired messages ≡ true → ensure_tool_pairing messages ≡ messages
unfolding ensure_tool_pairing is_paired Quiet
ensure_tool_pairing-paired messages h = rw (repair_from-Quiet messages none h) refl
