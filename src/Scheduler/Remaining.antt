-- ===== src/Scheduler/Remaining.antt =====
-- The rows that recovery has still to take in (`recover` of
-- src/thumbelina/scheduler/scheduler.py).
use mathlib.Core.Option
use thumbelina.Prelude.{
  String, false, none, some, List, [], ◌∷◌, map, contains, Dict, lookup, insert, lookup-insert,
  str_eq, eq_iff, ◌≡◌, refl, ap, ◌∙◌, arith, Option-cases, inl, inr,
}
use thumbelina.Scheduler.Models.{ScheduledTask}
use thumbelina.Scheduler.Codec.{to_record-to_model}
use thumbelina.Scheduler.Store.{ScheduledTaskRecord, to_record, to_model, to_models}
use thumbelina.Scheduler.Keyed.{KeyedRows}
use thumbelina.Scheduler.Synced.{id-to_record}

abbrev pub ids_of : List ScheduledTask → List String
ids_of ts = map (λ (t : ScheduledTask). t.id) ts

-- the rows that are still to be read have their tasks, whose ids are new to the working set
unfoldable pub Remaining :
    Dict ScheduledTaskRecord → Dict ScheduledTask → List ScheduledTask → Type 0
Remaining rows tasks [] = Unit
Remaining rows tasks (t ∷ ts) =
    (lookup t.id rows ≡ some (to_record t))
    × (lookup t.id tasks ≡ none)
    × (contains (ids_of ts) t.id ≡ false)
    × Remaining rows tasks ts

-- a row or an object at another id changes nothing for them
pub Remaining-insert :
    (rows : Dict ScheduledTaskRecord) (tasks : Dict ScheduledTask) (id : String)
    (r : ScheduledTaskRecord) (ts : List ScheduledTask)
    → contains (ids_of ts) id ≡ false
    → Remaining rows tasks ts
    → Remaining (insert id r rows) tasks ts
unfolding Remaining
Remaining-insert rows tasks id r [] n h = tt
Remaining-insert rows tasks id r (t ∷ ts) n h = (
  lookup-insert id t.id r rows ∙ ground (arith, n, h.0, eq_iff id t.id, eq_iff t.id id),
  h.1,
  h.2,
  Remaining-insert rows tasks id r ts (ground (arith, n)) h.3,
)

pub Remaining-cache :
    (rows : Dict ScheduledTaskRecord) (tasks : Dict ScheduledTask) (id : String) (u : ScheduledTask)
    (ts : List ScheduledTask)
    → contains (ids_of ts) id ≡ false
    → Remaining rows tasks ts
    → Remaining rows (insert id u tasks) ts
unfolding Remaining
Remaining-cache rows tasks id u [] n h = tt
Remaining-cache rows tasks id u (t ∷ ts) n h = (
  h.0,
  lookup-insert id t.id u tasks ∙ ground (arith, n, h.1, eq_iff id t.id, eq_iff t.id id),
  h.2,
  Remaining-cache rows tasks id u ts (ground (arith, n)) h.3,
)

-- the id of a row that is read is its key
id-to_model :
    (k : String) (r : ScheduledTaskRecord) (t : ScheduledTask)
    → r.id ≡ k
    → to_model r ≡ some t
    → t.id ≡ k
id-to_model k r t h e = id-to_record t r (to_record-to_model r t e) ∙ h

-- what reading rows one after the other takes apart
to_models-cons :
    (k : String) (r : ScheduledTaskRecord) (rows : Dict ScheduledTaskRecord)
    (ts : List ScheduledTask)
    → to_models ((k, r) ∷ rows) ≡ some ts
    → (t : ScheduledTask) × (us : List ScheduledTask) × (to_model r ≡ some t)
      × (to_models rows ≡ some us)
      × (ts ≡ t ∷ us)
unfolding to_models Option.bind
to_models-cons k r rows ts e = elim (Option-cases (to_model r)) [
  | inl absent ↦ ground (arith, absent, e)
  | inr (t, p) ↦ elim (Option-cases (to_models rows)) [
    | inl absent ↦ ground (arith, p, absent, e)
    | inr (us, q) ↦ (t, us, p, q, ground (arith, p, q, e))
  ]
]

no_models : (t : ScheduledTask) (ts : List ScheduledTask) → to_models [] ≡ some (t ∷ ts) → ⊥
unfolding to_models
no_models t ts e = cc

contains-to_models :
    (rows : Dict ScheduledTaskRecord) (ts : List ScheduledTask) (k : String)
    → KeyedRows rows
    → to_models rows ≡ some ts
    → lookup k rows ≡ none
    → contains (ids_of ts) k ≡ false
unfolding KeyedRows lookup
contains-to_models [] [] k h e n = refl
contains-to_models [] (t ∷ ts) k h e n = absurd (no_models t ts e)
contains-to_models ((j, r) ∷ rows) ts k h e n =
    let (t, us, p, q, c) = to_models-cons j r rows ts e in
    let i = id-to_model j r t h.0 p in
    let other : str_eq j k ≡ false = ground (arith, n) in
    rw c
      (ground (arith, i, other, n, contains-to_models rows us k h.2 q (ground (arith, other, n))))

pub to_models-Remaining :
    (all rows : Dict ScheduledTaskRecord) (ts : List ScheduledTask)
    → KeyedRows rows
    → to_models rows ≡ some ts
    → ((k : String) (r : ScheduledTaskRecord) → lookup k rows ≡ some r → lookup k all ≡ some r)
    → Remaining all [] ts
unfolding KeyedRows Remaining lookup
to_models-Remaining all [] [] h e g = tt
to_models-Remaining all [] (t ∷ ts) h e g = absurd (no_models t ts e)
to_models-Remaining all ((k, r) ∷ rows) ts h e g =
    let (t, us, p, q, c) = to_models-cons k r rows ts e in
    let i = id-to_model k r t h.0 p in
    rw c (
      g t.id (to_record t) (ground (arith, i, eq_iff k t.id, to_record-to_model r t p)),
      refl,
      ap (contains (ids_of us)) i ∙ contains-to_models rows us k h.2 q h.1,
      to_models-Remaining all rows us h.2 q (λ j x l. g j x (ground (arith, eq_iff k j, h.1, l))),
    )
