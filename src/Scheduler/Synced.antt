-- ===== src/Scheduler/Synced.antt =====
-- Write-through: what the working set holds is what the task table holds.
use mathlib.Core.Option
use mathlib.Core.Path.{subst}
use thumbelina.Prelude.{
  ℕ, String, true, Option, none, some, Dict, lookup, insert, ◌≡◌, refl, sym, ap, inl, inr, arith,
  eq_iff, lookup-insert, Option-cases,
}
use thumbelina.Scheduler.Models.{ScheduledTask, TaskEvent}
use thumbelina.Scheduler.Codec.{to_record-to_model}
use thumbelina.Scheduler.Keyed.{KeyedRows, KeyedRows-lookup, KeyedRows-insert}
use thumbelina.Scheduler.Store
use thumbelina.Scheduler.Store.{TaskStore, ScheduledTaskRecord, to_record, to_model, upsert_task}
use thumbelina.Scheduler.State.{
  TaskScheduler, emit, save, with_task, with_found, cache_answer, lookup_stored, lookup_memory,
  lookup_task,
}

abbrev pub IsReliable : Option TaskStore → Type 0
IsReliable none = ⊥
IsReliable (some st) = (n : ℕ) → st.up n ≡ true

-- each object of the working set has its key for its id, and its row holds its fields
abbrev pub Agrees : Option TaskStore → Dict ScheduledTask → Type 0
Agrees none tasks = ⊥
Agrees (some st) tasks =
    (k : String) (t : ScheduledTask)
    → lookup k tasks ≡ some t
    → (t.id ≡ k) × (lookup k st.rows ≡ some (to_record t))

-- each row stands under its primary key, and once
abbrev pub IsKeyed : Option TaskStore → Type 0
IsKeyed none = ⊥
IsKeyed (some st) = KeyedRows st.rows

pub record IsSynced (s : TaskScheduler) : Type 0 where
  pub reliable : IsReliable s.store
  pub agrees : Agrees s.store s.tasks
  pub keyed : IsKeyed s.store

pub emit-IsSynced : (e : TaskEvent) (s : TaskScheduler) → IsSynced s → IsSynced (emit e s)
unfolding emit
emit-IsSynced e s h = record { reliable = h.reliable; agrees = h.agrees; keyed = h.keyed }

module _ (t : ScheduledTask) (st : TaskStore) (up : (n : ℕ) → st.up n ≡ true) where
  pub upsert-IsReliable : IsReliable (some (upsert_task t st))
  unfolding upsert_task
  upsert-IsReliable n = ground (arith, up n)

  pub rows-upsert : (upsert_task t st).rows ≡ insert t.id (to_record t) st.rows
  unfolding upsert_task
  rows-upsert = ground (arith, up st.calls)

  upsert-Agrees :
      (tasks : Dict ScheduledTask)
      → Agrees (some st) tasks
      → Agrees (some (upsert_task t st)) (insert t.id t tasks)
  upsert-Agrees tasks h k u e = rw rows-upsert (
      ground (
        arith,
        eq_iff t.id k,
        lookup-insert t.id k t tasks,
        lookup-insert t.id k (to_record t) st.rows,
        h k u,
      ))

  pub upsert-IsKeyed : IsKeyed (some st) → IsKeyed (some (upsert_task t st))
  unfolding to_record
  upsert-IsKeyed h = rw rows-upsert (KeyedRows-insert st.rows (to_record t) h)

upsert_stored :
    (t : ScheduledTask) (o : Option TaskStore) (tasks : Dict ScheduledTask)
    → IsReliable o
    → Agrees o tasks
    → IsKeyed o
    → IsReliable (Option.map (upsert_task t) o)
      × Agrees (Option.map (upsert_task t) o) (insert t.id t tasks)
      × IsKeyed (Option.map (upsert_task t) o)
upsert_stored t none tasks up h k = absurd up
upsert_stored t (some st) tasks up h k =
    (upsert-IsReliable t st up, upsert-Agrees t st up tasks h, upsert-IsKeyed t st up k)

save_self-IsSynced : (t : ScheduledTask) (s : TaskScheduler) → IsSynced s → IsSynced (save t.id t s)
unfolding save
save_self-IsSynced t s h =
    let (up, agrees, keyed) = upsert_stored t s.store s.tasks h.reliable h.agrees h.keyed in
    record { reliable = up; agrees = agrees; keyed = keyed }

pub save-IsSynced :
    (key : String) (t : ScheduledTask) (s : TaskScheduler)
    → t.id ≡ key
    → IsSynced s
    → IsSynced (save key t s)
save-IsSynced key t s e h = subst (λ k. IsSynced (save k t s)) e (save_self-IsSynced t s h)

-- a task of the working set stands under its own id
pub id-lookup :
    (key : String) (t : ScheduledTask) (s : TaskScheduler)
    → IsSynced s
    → lookup key s.tasks ≡ some t
    → t.id ≡ key
id-lookup key t s h e = of_store s.store h.agrees
  where
    of_store : (o : Option TaskStore) → Agrees o s.tasks → t.id ≡ key
    of_store none a = absurd a
    of_store (some st) a = (a key t e).0

-- a row that is read is cached at its key, and is the row of what is cached
pub cache-Agrees :
    (key : String) (t : ScheduledTask) (st : TaskStore) (tasks : Dict ScheduledTask)
    → t.id ≡ key
    → lookup key st.rows ≡ some (to_record t)
    → Agrees (some st) tasks
    → Agrees (some st) (insert key t tasks)
cache-Agrees key t st tasks i row h k u e =
    ground (arith, eq_iff key k, lookup-insert key k t tasks, h k u)

pub id-to_record : (t : ScheduledTask) (r : ScheduledTaskRecord) → to_record t ≡ r → t.id ≡ r.id
unfolding to_record
id-to_record t r e = ap (λ (x : ScheduledTaskRecord). x.id) e

read_row :
    (key : String) (st : TaskStore) (t : ScheduledTask)
    → IsKeyed (some st)
    → (Store.get_task key st).0 ≡ some (some t)
    → (t.id ≡ key) × (lookup key st.rows ≡ some (to_record t))
unfolding Store.get_task
read_row key st t k e = elim (Option-cases (lookup key st.rows)) [
  | inl absent ↦ ground arith
  | inr (r, p) ↦
      ground (arith, KeyedRows-lookup st.rows key r k p, to_record-to_model r t, id-to_record t r)
]

-- an answer of `_lookup_task`, with the state that it leaves
abbrev pub Finds : String → Option ScheduledTask × TaskScheduler → Type 0
Finds key r = IsSynced r.1 × ((t : ScheduledTask) → r.0 ≡ some t → t.id ≡ key)

cache_answer-Finds :
    (key : String) (s : TaskScheduler) (st : TaskStore) (a : Option (Option ScheduledTask))
    → s.store ≡ some st
    → IsSynced s
    → ((t : ScheduledTask)
        → a ≡ some (some t)
        → (t.id ≡ key) × (lookup key st.rows ≡ some (to_record t)))
    → Finds key (cache_answer key s a)
unfolding cache_answer
cache_answer-Finds key s st none e h read = (h, λ t p. ground arith)
cache_answer-Finds key s st (some none) e h read = (h, λ t p. ground arith)
cache_answer-Finds key s st (some (some t)) e h read =
    let (i, row) = read t refl in
    (
      record {
        reliable = h.reliable;
        agrees =
            subst (λ o. Agrees o (insert key t s.tasks)) (sym e)
              (cache-Agrees key t st s.tasks i row (subst (λ o. Agrees o s.tasks) e h.agrees));
        keyed = h.keyed;
      },
      λ u p. ground (arith, i),
    )

lookup_stored-Finds :
    (key : String) (s : TaskScheduler) (o : Option TaskStore)
    → IsReliable o
    → Agrees o s.tasks
    → IsKeyed o
    → Finds key (lookup_stored key s o)
unfolding lookup_stored Store.get_task
lookup_stored-Finds key s none up h k = absurd up
lookup_stored-Finds key s (some st) up h k =
    cache_answer-Finds key (record s { store = some (Store.get_task key st).1 })
      (Store.get_task key st).1 (Store.get_task key st).0 refl
      (record { reliable = up; agrees = h; keyed = k }) (λ t. read_row key st t k)

lookup_memory-Finds :
    (key : String) (s : TaskScheduler) (found : Option ScheduledTask)
    → IsSynced s
    → lookup key s.tasks ≡ found
    → Finds key (lookup_memory key s found)
unfolding lookup_memory
lookup_memory-Finds key s (some t) h e = (h, λ u p. ground (arith, id-lookup key t s h e))
lookup_memory-Finds key s none h e = lookup_stored-Finds key s s.store h.reliable h.agrees h.keyed

pub lookup_task-Finds :
    (key : String) (s : TaskScheduler) → IsSynced s → Finds key (lookup_task key s)
unfolding lookup_task
lookup_task-Finds key s h = lookup_memory-Finds key s (lookup key s.tasks) h refl

-- a piece of code that keeps the agreement, given an object that stands under its id
abbrev pub Keeps : String → (ScheduledTask → TaskScheduler → TaskScheduler) → Type 0
Keeps key f = (t : ScheduledTask) (s : TaskScheduler) → t.id ≡ key → IsSynced s → IsSynced (f t s)

pub with_task-IsSynced :
    (key : String) (f : ScheduledTask → TaskScheduler → TaskScheduler) (s : TaskScheduler)
    → Keeps key f
    → IsSynced s
    → IsSynced (with_task key f s)
unfolding with_task
with_task-IsSynced key f s keeps h = found (lookup key s.tasks) refl
  where
    found : (o : Option ScheduledTask) → lookup key s.tasks ≡ o → IsSynced (with_found o f s)
    found none e = h
    found (some t) e = keeps t s (id-lookup key t s h e) h
