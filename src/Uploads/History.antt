-- ===== src/Uploads/History.antt =====
-- The life of an upload task over any steps, and the bound on the finished ones
-- (src/thumbelina/rag/pipeline/upload_tasks.py).
use thumbelina.Prelude.{
  ℕ, suc, ◌-◌, ◌≤◌, String, true, false, none, some, [], Dict, Option, lookup, insert,
  lookup-insert, arith, eq_refl, length, ◌≡◌, refl, if_both,
}
use thumbelina.Uploads.{
  UploadStatus, UploadTask, UploadTaskManager, Outcome, is_terminal, is_pending, finished_of,
  evict_finished, max_finished_tasks, new_task, create, remove, cancel, cancel_found, cancel_active,
  active_in, cancel_by_kb, set_result, run_enter, try_start, run_end, finalize, status_of, error_of,
}
use thumbelina.Uploads.Table.{IsTable, insert-IsTable, lookup-id, lookup-evict_finished}
use thumbelina.Uploads.Statuses.{
  Later, Follows, start_file-Follows, mark_file_done-Follows, update_progress-Follows,
  set_result-Follows, finalize-Follows, start_found-Follows, Follows-refl, pending_active,
}
use thumbelina.Uploads.Withdrawn.{
  remove-Follows, create-Follows, cancel-Withdraws, cancel_each-Withdraws,
}
use thumbelina.Uploads.Finished.{evict_finished_bound}
use thumbelina.Uploads.Steps.{
  System, Step, Steps, here, next, creates, removes, cancels, cancels_all, starts_file, marks_file,
  progresses, sets_result, run_waits, run_enters, run_ends,
}

-- `UploadTaskManager(max_concurrent)`
abbrev pub new_manager : ℕ → UploadTaskManager
new_manager max_concurrent = record {
  tasks = [];
  permits = max_concurrent;
  is_set = λ i. false;
  next_event = 0;
}

abbrev pub new_system : ℕ → System
new_system max_concurrent = record {
  manager = new_manager max_concurrent;
  waiting = [];
  workers = [];
}

-- the semaphore is no part of what a task's history is about
with_permits :
    (s s' : UploadTaskManager) (n : ℕ) → Follows s s' → Follows s (record s' { permits = n })
unfolding Later
with_permits s s' n f = record {
  table = λ h. f.table h;
  later = λ x t h e. same (lookup x s'.tasks) t (f.later x t h e);
}
  where
    same :
        (o : Option UploadTask) (t : UploadTask)
        → Later s s' t o
        → Later s (record s' { permits = n }) t o
    same none t l = l
    same (some u) t l = l

run_enter-Follows : (id : String) (s : UploadTaskManager) → Follows s (run_enter id s).1
unfolding run_enter try_start
run_enter-Follows id s =
    let r = try_start id s in
    let f = start_found-Follows id (lookup id s.tasks) s refl in
    if_both (Follows s) r.0 (with_permits s r.1 (r.1.permits - 1) f) f

run_end-Follows :
    (id : String) (outcome : Outcome) (s : UploadTaskManager) → Follows s (run_end id outcome s)
unfolding run_end
run_end-Follows id outcome s =
    let s' = finalize id (status_of outcome) (error_of outcome) s in
    with_permits s s' (suc s'.permits) (finalize-Follows id outcome (error_of outcome) s)

Step-Follows : {s s' : System} → Step s s' → Follows s.manager s'.manager
unfolding remove set_result cancel_by_kb
Step-Follows {s} (creates id kb_id kind label total_files now e) =
    create-Follows id kb_id kind label total_files now s.manager e
Step-Follows {s} (removes id) = remove-Follows id (lookup id s.manager.tasks) s.manager refl
Step-Follows {s} (cancels id) = (cancel-Withdraws id s.manager).follows
Step-Follows {s} (cancels_all kb_id) =
    (cancel_each-Withdraws (active_in kb_id s.manager.tasks) s.manager).follows
Step-Follows {s} (starts_file id index filename) = start_file-Follows id index filename s.manager
Step-Follows {s} (marks_file id) = mark_file_done-Follows id s.manager
Step-Follows {s} (progresses id e) = update_progress-Follows id e s.manager
Step-Follows {s} (sets_result id r) =
    set_result-Follows id r (lookup id s.manager.tasks) s.manager refl
Step-Follows {s} (run_waits id h) = Follows-refl s.manager
Step-Follows {s} (run_enters id before after h k) = run_enter-Follows id s.manager
Step-Follows {s} (run_ends id before after outcome h) = run_end-Follows id outcome s.manager

Steps-IsTable : {s s' : System} → Steps s s' → IsTable s.manager.tasks → IsTable s'.manager.tasks
Steps-IsTable here h = h
Steps-IsTable (next r st) h = (Step-Follows st).table (Steps-IsTable r h)

new_system-IsTable : (n : ℕ) → IsTable (new_system n).manager.tasks
unfolding IsTable
new_system-IsTable n = tt

-- What any step makes of a task in any state that steps lead to from a new manager: a finished task
-- keeps its status or leaves the table; another one leaves it only with its cancel event set; none
-- comes back to the queue; one is started only from the queue with its cancel event clear.
pub life_cycle :
    (n : ℕ) (s s' : System) (x : String) (t : UploadTask)
    → Steps (new_system n) s
    → Step s s'
    → lookup x s.manager.tasks ≡ some t
    → Later s.manager s'.manager t (lookup x s'.manager.tasks)
life_cycle n s s' x t r st e =
    (Step-Follows st).later x t (Steps-IsTable r (new_system-IsTable n)) e

cancel_bound :
    (x : String) (t : UploadTask) (s : UploadTaskManager)
    → IsTable s.tasks
    → lookup x s.tasks ≡ some t
    → is_pending t.status ≡ true
    → length (finished_of (cancel_found x (some t) s).1.tasks) ≤ max_finished_tasks
unfolding cancel_found cancel_active
cancel_bound x t s h e p =
    let u : UploadTask = record t { status = UploadStatus.cancelled; stage = "done" } in
    rw (pending_active t.status p, p)
      (evict_finished_bound (insert x u s.tasks)
        (insert-IsTable x u s.tasks (lookup-id x t s.tasks h e) h))

create_present :
    (x : String) (t : UploadTask) (d : Dict UploadTask)
    → IsTable (insert x t d)
    → is_terminal t.status ≡ false
    → lookup x (evict_finished (insert x t d)) ≡ some t
create_present x t d h active =
    ground
      (arith, lookup-evict_finished x t (insert x t d) h, lookup-insert x x t d, eq_refl x, active)

-- In any state that steps lead to from a new manager, the creation of a task puts it into
-- the table and leaves at most 50 finished ones, and so many are left by the cancellation of a task of the queue.
pub finished_bound :
    (n : ℕ) (s : System) (id kb_id kind label : String) (total_files now : ℕ)
    → Steps (new_system n) s
    → let m = s.manager in
      let (task, m') = create id kb_id kind label total_files now m in
      (lookup id m'.tasks ≡ some task)
      × (length (finished_of m'.tasks) ≤ max_finished_tasks)
      × ((x : String) (t : UploadTask)
          → lookup x m.tasks ≡ some t
          → is_pending t.status ≡ true
          → length (finished_of (cancel x m).1.tasks) ≤ max_finished_tasks)
unfolding create cancel is_terminal
finished_bound n s id kb_id kind label total_files now r =
    let m = s.manager in
    let h = Steps-IsTable r (new_system-IsTable n) in
    let task = new_task id kb_id kind label total_files now m.next_event in
    let grown = insert-IsTable id task m.tasks refl h in
    (
      create_present id task m.tasks grown refl,
      evict_finished_bound (insert id task m.tasks) grown,
      λ x t e p. rw e (cancel_bound x t m h e p),
    )
