-- ===== src/Uploads/Workers.antt =====
-- The tasks that run are those that the workers work on, and the semaphore bounds the workers
-- (src/thumbelina/rag/pipeline/upload_tasks.py).
use thumbelina.Prelude.{
  ℕ, ◌+◌, ◌-◌, ◌<◌, String, Bool, true, false, not, ◌&&◌, Option, none, some, List, [], ◌∷◌, ◌++◌,
  lookup, insert, lookup-insert, length, length-append, contains, str_eq, eq_iff, eq_refl,
  if◌then◌else◌, if_both, if_known, ◌≡◌, refl, sym, ap, ◌∙◌, ◌⊎◌, inl, inr, arith, Bool-cases,
}
use thumbelina.Uploads.{
  UploadStatus, UploadTask, UploadTaskManager, Outcome, returned, was_cancelled, raised, status_of,
  error_of, is_terminal, is_pending, new_task, create, remove, cancel, active_in, cancel_by_kb,
  change_active, started, start_file, one_more, mark_file_done, progressed, update_progress,
  set_result, start_found, try_start, run_enter, finalized, finalize, run_end,
}
use thumbelina.Uploads.Places.{
  change_active-permits, result_found-permits, remove_found-permits, cancel_found-permits,
  cancel_each-permits,
}
use thumbelina.Uploads.Steps.{
  System, Step, Steps, entered, here, next, creates, removes, cancels, cancels_all, starts_file,
  marks_file, progresses, sets_result, run_waits, run_enters, run_ends,
}
use thumbelina.Uploads.History.{new_system}
use thumbelina.Uploads.Idle.{
  is_running, runs_in, runs, Quiet, insert-Quiet, evict_finished-Quiet, change_active-Quiet,
  result_found-Quiet, remove_found-Quiet, cancel_found-Quiet, cancel_each-Quiet,
}

-- the permits and the workers make up the places of the semaphore, and a worker works on each task
-- that runs
pub record IsStaffed (n : ℕ) (s : System) : Type 0 where
  pub places : s.manager.permits + length s.workers ≡ n
  pub worked_on : (x : String) → runs x s.manager.tasks ≡ true → contains s.workers x ≡ true

-- a step that starts nothing, and touches neither the semaphore nor the workers
Quiet-IsStaffed :
    {n : ℕ} {s : System} (m : UploadTaskManager)
    → Quiet s.manager.tasks m.tasks
    → m.permits ≡ s.manager.permits
    → IsStaffed n s
    → IsStaffed n (record s { manager = m })
Quiet-IsStaffed m q e h = record {
  places = omega (arith, h.places, e);
  worked_on = λ x r. h.worked_on x (q x r);
}

create-Quiet :
    (id kb_id kind label : String) (total_files now : ℕ) (s : UploadTaskManager)
    → Quiet s.tasks (create id kb_id kind label total_files now s).1.tasks
unfolding create is_running
create-Quiet id kb_id kind label total_files now s x h =
    let task = new_task id kb_id kind label total_files now s.next_event in
    insert-Quiet id task s.tasks (λ g. cc) x (evict_finished-Quiet (insert id task s.tasks) x h)

update_active :
    {n : ℕ} {s : System} (f : UploadTask → UploadTask) (id : String)
    → IsStaffed n s
    → ((t : UploadTask) → is_running (f t).status ≡ true → is_running t.status ≡ true)
    → IsStaffed n (record s { manager = change_active f id (lookup id s.manager.tasks) s.manager })
update_active {n} {s} f id h g =
    let o = lookup id s.manager.tasks in
    Quiet-IsStaffed (change_active f id o s.manager) (change_active-Quiet f id o s.manager refl g)
      (change_active-permits f id o s.manager) h

-- what a coroutine that gets the semaphore changes
abbrev Enters : String → UploadTaskManager → Bool × UploadTaskManager → Type 0
Enters id s r =
    (r.1.permits ≡ s.permits)
    × ((x : String)
        → runs x r.1.tasks ≡ true
        → (runs x s.tasks ≡ true) ⊎ ((r.0 && str_eq id x) ≡ true))

start_found-Enters :
    (id : String) (o : Option UploadTask) (s : UploadTaskManager) → Enters id s (start_found id o s)
unfolding start_found runs_in
start_found-Enters id none s = (refl, λ x r. inl r)
start_found-Enters id (some t) s =
    let u : UploadTask = record t { status = UploadStatus.running } in
    if_both (Enters id s) (is_pending t.status && not (s.is_set t.cancel_event))
      (refl, λ x r. ground (arith, lookup-insert id x u s.tasks, r)) (refl, λ x r. inl r)

terminal_idle : (status : UploadStatus) → is_terminal status ≡ true → is_running status ≡ false
unfolding is_terminal is_running
terminal_idle UploadStatus.pending h = refl
terminal_idle UploadStatus.running h = sym h
terminal_idle UploadStatus.completed h = refl
terminal_idle UploadStatus.failed h = refl
terminal_idle UploadStatus.cancelled h = refl

outcome_idle : (outcome : Outcome) → is_running (status_of outcome) ≡ false
unfolding is_running
outcome_idle returned = refl
outcome_idle was_cancelled = refl
outcome_idle (raised e) = refl

-- no task of the id runs after the end of its work
finalize-runs :
    (id : String) (outcome : Outcome) (o : Option UploadTask) (s : UploadTaskManager)
    → lookup id s.tasks ≡ o
    → runs id (change_active (finalized (status_of outcome) (error_of outcome)) id o s).tasks
      ≡ false
unfolding change_active runs_in finalized
finalize-runs id outcome none s e = ap runs_in e
finalize-runs id outcome (some t) s e =
    let u = finalized (status_of outcome) (error_of outcome) t in
    if_known (λ (m : UploadTaskManager). runs id m.tasks ≡ false) (is_terminal t.status)
      (λ h. ap runs_in e ∙ terminal_idle t.status h)
      (λ h.
        ap runs_in (lookup-insert id id u s.tasks)
        ∙ ground (arith, eq_refl id, outcome_idle outcome))

contains-middle :
    (x id : String) (before after : List String)
    → str_eq id x ≡ false
    → contains (before ++ id ∷ after) x ≡ contains (before ++ after) x
contains-middle x id [] after h = ground (arith, h)
contains-middle x id (y ∷ before) after h = ground (arith, contains-middle x id before after h)

run_enter-IsStaffed :
    {n : ℕ} {s : System} (id : String) (waiting : List String)
    → 0 < s.manager.permits
    → IsStaffed n s
    → IsStaffed n (entered (run_enter id s.manager) id waiting s)
unfolding run_enter try_start
run_enter-IsStaffed {n} {s} id waiting k h =
    staffed (start_found id (lookup id s.manager.tasks) s.manager)
      (start_found-Enters id (lookup id s.manager.tasks) s.manager)
  where
    staffed :
        (r : Bool × UploadTaskManager)
        → Enters id s.manager r
        → IsStaffed n (
            entered
              (r.0, if r.0 then record r.1 { permits = r.1.permits - 1 } else r.1)
              id
              waiting
              s)
    staffed (true, m) (p, e) = record {
      places = omega (arith, h.places, k, p);
      worked_on = λ x r. ground (arith, e x r, h.worked_on x);
    }
    staffed (false, m) (p, e) = record {
      places = omega (arith, h.places, p);
      worked_on = λ x r. ground (arith, e x r, h.worked_on x);
    }

run_end-IsStaffed :
    {n : ℕ} {s : System} (id : String) (before after : List String) (outcome : Outcome)
    → s.workers ≡ before ++ id ∷ after
    → IsStaffed n s
    → IsStaffed n (record s { manager = run_end id outcome s.manager; workers = before ++ after })
unfolding run_end finalize finalized
run_end-IsStaffed {n} {s} id before after outcome w h =
    let f = finalized (status_of outcome) (error_of outcome) in
    let o = lookup id s.manager.tasks in
    let quiet : Quiet s.manager.tasks (change_active f id o s.manager).tasks =
      change_active-Quiet f id o s.manager refl (λ t g. ground (arith, outcome_idle outcome, g)) in
    record {
      places = omega (
        arith,
        h.places,
        ap length w,
        length-append before (id ∷ after),
        length-append before after,
        change_active-permits f id o s.manager,
      );
      worked_on = λ x r. elim (Bool-cases (str_eq id x)) [
        | inl same ↦ ground (
          arith,
          finalize-runs id outcome o s.manager refl,
          r,
          ap (λ k. runs k (change_active f id o s.manager).tasks) ((eq_iff id x).0 same),
        )
        | inr other ↦
            sym (contains-middle x id before after other)
            ∙ ap (λ l. contains l x) (sym w)
            ∙ h.worked_on x (quiet x r)
      ];
    }

Step-IsStaffed : {n : ℕ} {s s' : System} → Step s s' → IsStaffed n s → IsStaffed n s'
unfolding create remove cancel cancel_by_kb start_file mark_file_done update_progress set_result
    started one_more progressed
Step-IsStaffed {n} {s} (creates id kb_id kind label total_files now e) h =
    let m = s.manager in
    Quiet-IsStaffed (create id kb_id kind label total_files now m).1
      (create-Quiet id kb_id kind label total_files now m) refl h
Step-IsStaffed {n} {s} (removes id) h =
    let m = s.manager in
    let o = lookup id m.tasks in
    Quiet-IsStaffed (remove id m).1 (remove_found-Quiet id o m) (remove_found-permits id o m) h
Step-IsStaffed {n} {s} (cancels id) h =
    let m = s.manager in
    let o = lookup id m.tasks in
    Quiet-IsStaffed (cancel id m).1 (cancel_found-Quiet id o m) (cancel_found-permits id o m) h
Step-IsStaffed {n} {s} (cancels_all kb_id) h =
    let m = s.manager in
    let ids = active_in kb_id m.tasks in
    Quiet-IsStaffed (cancel_by_kb kb_id m).1 (cancel_each-Quiet ids m) (cancel_each-permits ids m) h
Step-IsStaffed {n} {s} (starts_file id index filename) h =
    let f = started index filename in update_active f id h (λ t r. r)
Step-IsStaffed {n} {s} (marks_file id) h = update_active one_more id h (λ t r. r)
Step-IsStaffed {n} {s} (progresses id e) h = update_active (progressed e) id h (λ t r. r)
Step-IsStaffed {n} {s} (sets_result id r) h =
    let m = s.manager in
    let o = lookup id m.tasks in
    Quiet-IsStaffed (set_result id r m) (result_found-Quiet id r o m refl)
      (result_found-permits id r o m) h
Step-IsStaffed {n} {s} (run_waits id e) h = record { places = h.places; worked_on = h.worked_on }
Step-IsStaffed {n} {s} (run_enters id before after e k) h =
    run_enter-IsStaffed id (before ++ after) k h
Step-IsStaffed {n} {s} (run_ends id before after outcome w) h =
    run_end-IsStaffed id before after outcome w h

Steps-IsStaffed : {n : ℕ} {s s' : System} → Steps s s' → IsStaffed n s → IsStaffed n s'
Steps-IsStaffed here h = h
Steps-IsStaffed (next r st) h = Step-IsStaffed st (Steps-IsStaffed r h)

new_system-IsStaffed : (n : ℕ) → IsStaffed n (new_system n)
unfolding runs_in lookup
new_system-IsStaffed n = record { places = omega arith; worked_on = λ x r. cc }

-- With a semaphore of n places, in every state that any sequence of steps leads to from a new
-- manager: the free places and the coroutines that work are n together, and one of these works on
-- each task of the table that is RUNNING.
pub running_is_worked_on :
    (n : ℕ) (s : System)
    → Steps (new_system n) s
    → (s.manager.permits + length s.workers ≡ n)
      × ((x : String) (t : UploadTask)
          → lookup x s.manager.tasks ≡ some t
          → t.status ≡ UploadStatus.running
          → contains s.workers x ≡ true)
unfolding is_running runs_in
running_is_worked_on n s r =
    let h = Steps-IsStaffed r (new_system-IsStaffed n) in
    (h.places, λ x t e st. h.worked_on x (ap runs_in e ∙ ap is_running st))
