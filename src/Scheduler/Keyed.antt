-- ===== src/Scheduler/Keyed.antt =====
-- The rows of the task table under their primary keys (src/thumbelina/scheduler/store.py).
use thumbelina.Prelude.{
  String, none, some, [], ◌∷◌, Dict, lookup, insert, lookup-insert, str_eq, eq_iff, ◌≡◌, refl,
  arith, Bool-cases, inl, inr,
}
use thumbelina.Scheduler.Store.{ScheduledTaskRecord}

-- each row stands under its own id, and once
unfoldable pub KeyedRows : Dict ScheduledTaskRecord → Type 0
KeyedRows [] = Unit
KeyedRows ((k, r) ∷ rows) = (r.id ≡ k) × (lookup k rows ≡ none) × KeyedRows rows

pub KeyedRows-lookup :
    (rows : Dict ScheduledTaskRecord) (k : String) (r : ScheduledTaskRecord)
    → KeyedRows rows
    → lookup k rows ≡ some r
    → r.id ≡ k
unfolding KeyedRows lookup
KeyedRows-lookup [] k r h e = cc
KeyedRows-lookup ((j, q) ∷ rows) k r h e = elim (Bool-cases (str_eq j k)) [
  | inl same ↦ ground (arith, same, e, eq_iff j k, h.0)
  | inr other ↦ KeyedRows-lookup rows k r h.2 (ground (arith, other, e))
]

pub KeyedRows-insert :
    (rows : Dict ScheduledTaskRecord) (r : ScheduledTaskRecord)
    → KeyedRows rows
    → KeyedRows (insert r.id r rows)
unfolding KeyedRows insert lookup
KeyedRows-insert [] r h = (refl, refl, tt)
KeyedRows-insert ((j, q) ∷ rows) r h = elim (Bool-cases (str_eq j r.id)) [
  | inl same ↦ rw same (ground (arith, same, eq_iff j r.id), h.1, h.2)
  | inr other ↦ rw other (
    h.0,
    ground (arith, other, eq_iff j r.id, eq_iff r.id j, lookup-insert r.id j r rows, h.1),
    KeyedRows-insert rows r h.2,
  )
]
