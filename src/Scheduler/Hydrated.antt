-- ===== src/Scheduler/Hydrated.antt =====
-- Recovery on a new scheduler object, and the start of its loop, keep the working set and the task
-- table in step (`recover` of src/thumbelina/scheduler/scheduler.py).
use mathlib.Core.Option
use mathlib.Core.Path.{subst}
use thumbelina.Prelude.{
  ℕ, String, Bool, true, false, not, ◌&&◌, ◌||◌, Option, none, some, List, [], ◌∷◌, contains, Dict,
  lookup, insert, lookup-insert, str_eq, eq_iff, if_both, ◌≡◌, refl, sym, ap, ◌∙◌, arith,
}
use thumbelina.Scheduler.Models.{ScheduledTask, is_cron, is_pending, is_paused}
use thumbelina.Scheduler.Cron.{Croniter}
use thumbelina.Scheduler.Store
use thumbelina.Scheduler.Store.{
  TaskStore, ScheduledTaskRecord, to_record, to_model, to_models, upsert_task,
}
use thumbelina.Scheduler.State.{TaskScheduler, emit, persist}
use thumbelina.Scheduler.Recover.{
  refuse_row, rejects, hydrate_task, hydrate, keys_of, recover_rows, recover_store, recover,
}
use thumbelina.Scheduler.Restart.{new_scheduler, start}
use thumbelina.Scheduler.Synced.{
  IsSynced, IsReliable, Agrees, IsKeyed, emit-IsSynced, upsert-IsReliable, rows-upsert,
  upsert-IsKeyed, cache-Agrees,
}
use thumbelina.Scheduler.PassWrites.{recover_tasks-IsSynced}
use thumbelina.Scheduler.Remaining.{
  ids_of, Remaining, Remaining-insert, Remaining-cache, to_models-Remaining,
}

-- what holds at the head of the first loop, with the tasks that are left
abbrev Hydrates : List ScheduledTask → TaskScheduler → Type 0
Hydrates ts s = (st : TaskStore) × (s.store ≡ some st) × IsSynced s × Remaining st.rows s.tasks ts

IsSynced-store :
    (s : TaskScheduler) (o : Option TaskStore)
    → s.store ≡ o
    → IsReliable o × Agrees o s.tasks × IsKeyed o
    → IsSynced s
IsSynced-store s o e h =
    let (up, agrees, keyed) = subst (λ x. IsReliable x × Agrees x s.tasks × IsKeyed x) (sym e) h in
    record { reliable = up; agrees = agrees; keyed = keyed }

store-IsSynced :
    (s : TaskScheduler) (o : Option TaskStore)
    → s.store ≡ o
    → IsSynced s
    → IsReliable o × Agrees o s.tasks × IsKeyed o
store-IsSynced s o e h =
    subst (λ x. IsReliable x × Agrees x s.tasks × IsKeyed x) e (h.reliable, h.agrees, h.keyed)

-- a row whose object is not in the working set can be written alone
upsert-Agrees_absent :
    (t : ScheduledTask) (st : TaskStore) (up : (n : ℕ) → st.up n ≡ true)
    (tasks : Dict ScheduledTask)
    → lookup t.id tasks ≡ none
    → Agrees (some st) tasks
    → Agrees (some (upsert_task t st)) tasks
upsert-Agrees_absent t st up tasks absent h k u e = rw (rows-upsert t st up) (
    let differs : str_eq t.id k ≡ false = ground (arith, eq_iff t.id k, absent, e) in
    (
      (h k u e).0,
      lookup-insert t.id k (to_record t) st.rows ∙ ground (arith, differs, (h k u e).1),
    ))

persist-Hydrates :
    (t t' : ScheduledTask) (ts : List ScheduledTask) (s : TaskScheduler)
    → t'.id ≡ t.id
    → Hydrates (t ∷ ts) s
    → Hydrates ts (persist t' s)
unfolding Remaining persist
persist-Hydrates t t' ts s i (st, e, h, r) =
    let (up, agrees, keyed) = store-IsSynced s (some st) e h in
    let e' : (persist t' s).store ≡ some (upsert_task t' st) = ap (Option.map (upsert_task t')) e in
    (
      upsert_task t' st,
      e',
      IsSynced-store (persist t' s) (some (upsert_task t' st)) e' (
        upsert-IsReliable t' st up,
        upsert-Agrees_absent t' st up s.tasks (ap (λ k. lookup k s.tasks) i ∙ r.1) agrees,
        upsert-IsKeyed t' st up keyed,
      ),
      subst (λ rows. Remaining rows s.tasks ts) (sym (rows-upsert t' st up))
          (Remaining-insert st.rows s.tasks t'.id (to_record t') ts
            (ap (contains (ids_of ts)) i ∙ r.2) r.3),
    )

refuse_row-Hydrates :
    (t : ScheduledTask) (ts : List ScheduledTask) (s : TaskScheduler)
    → Hydrates (t ∷ ts) s
    → Hydrates ts (refuse_row t s)
unfolding refuse_row emit
refuse_row-Hydrates t ts s h =
    let (st, e, k, r) = persist-Hydrates t _ ts s refl h in (st, e, emit-IsSynced _ _ k, r)

cached-Hydrates :
    (t : ScheduledTask) (ts : List ScheduledTask) (s : TaskScheduler)
    → Hydrates (t ∷ ts) s
    → Hydrates ts (record s { tasks = insert t.id t s.tasks })
unfolding Remaining
cached-Hydrates t ts s (st, e, h, r) =
    let (up, agrees, keyed) = store-IsSynced s (some st) e h in
    (
      st,
      e,
      IsSynced-store (record s { tasks = insert t.id t s.tasks }) (some st) e
          (up, cache-Agrees t.id t st s.tasks refl r.0 agrees, keyed),
      Remaining-cache st.rows s.tasks t.id t ts r.2 r.3,
    )

left-Hydrates :
    (t : ScheduledTask) (ts : List ScheduledTask) (s : TaskScheduler)
    → Hydrates (t ∷ ts) s
    → Hydrates ts s
unfolding Remaining
left-Hydrates t ts s (st, e, h, r) = (st, e, h, r.3)

module _ (c : Croniter) where
  hydrate_task-Hydrates :
      (t : ScheduledTask) (ts : List ScheduledTask) (s : TaskScheduler)
      → Hydrates (t ∷ ts) s
      → Hydrates ts (hydrate_task c t s)
  unfolding hydrate_task
  hydrate_task-Hydrates t ts s h =
      if_both (Hydrates ts) (is_cron t.trigger && not c.available) (left-Hydrates t ts s h) (
        if_both (Hydrates ts)
          (is_cron t.trigger && (is_pending t.status || is_paused t.status) && rejects c t)
          (refuse_row-Hydrates t ts s h) (cached-Hydrates t ts s h))

  hydrate-IsSynced :
      (ts : List ScheduledTask) (s : TaskScheduler) → Hydrates ts s → IsSynced (hydrate c ts s)
  unfolding hydrate
  hydrate-IsSynced [] s (st, e, h, r) = h
  hydrate-IsSynced (t ∷ ts) s h =
      hydrate-IsSynced ts (hydrate_task c t s) (hydrate_task-Hydrates t ts s h)

  recover_rows-IsSynced :
      (now : ℕ) (o : Option (List ScheduledTask)) (s : TaskScheduler)
      → IsSynced s
      → ((ts : List ScheduledTask) → o ≡ some ts → Hydrates ts s)
      → IsSynced (recover_rows c now o s)
  unfolding recover_rows
  recover_rows-IsSynced now none s h g = h
  recover_rows-IsSynced now (some ts) s h g =
      recover_tasks-IsSynced c now (keys_of (hydrate c ts s).tasks) (hydrate c ts s)
        (hydrate-IsSynced ts s (g ts refl))

-- recovery on a new scheduler object, whatever the settings
pub recover-IsSynced :
    (c : Croniter) (now : ℕ) (o : Option TaskStore) (bus : Bool) (policy : String) (grace : ℕ)
    → IsReliable o
    → IsKeyed o
    → IsSynced (recover c now (new_scheduler o bus policy grace))
unfolding recover recover_store new_scheduler Store.list_tasks lookup
recover-IsSynced c now none bus policy grace up k = absurd up
recover-IsSynced c now (some st) bus policy grace up k =
    let s' = new_scheduler (some (Store.list_tasks st).1) bus policy grace in
    let synced : IsSynced s' = record { reliable = up; agrees = λ j t h. cc; keyed = k } in
    recover_rows-IsSynced c now (Store.list_tasks st).0 s' synced (λ ts e. (
      (Store.list_tasks st).1,
      refl,
      synced,
      to_models-Remaining st.rows st.rows ts k (ground (arith, e, up st.calls)) (λ j r l. l),
    ))

pub start-IsSynced : (s : TaskScheduler) → IsSynced s → IsSynced (start s).1
unfolding start
start-IsSynced s h =
    if_both (λ (r : Bool × TaskScheduler). IsSynced r.1) s.running h
      record { reliable = h.reliable; agrees = h.agrees; keyed = h.keyed }
