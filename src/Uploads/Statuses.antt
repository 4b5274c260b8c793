-- ===== src/Uploads/Statuses.antt =====
-- What a step does to the status of a task (src/thumbelina/rag/pipeline/upload_tasks.py).
use mathlib.Core.Option.{some_inj}
use mathlib.Core.Path.{subst}
use thumbelina.Prelude.{
  ℕ, String, Bool, true, false, not, ◌&&◌, Option, none, some, Dict, lookup, insert, lookup-insert,
  str_eq, eq_iff, if_known, ◌≡◌, refl, sym, ap, ◌∙◌, ◌⊎◌, inl, inr, arith,
}
use thumbelina.Uploads.{
  UploadStatus, UploadTask, ProgressEvent, UploadTaskManager, Outcome, status_of, returned,
  was_cancelled, raised, is_terminal, is_pending, put, change_active, started, start_file, one_more,
  mark_file_done, progressed, update_progress, result_found, start_found, finalized, finalize,
}
use thumbelina.Uploads.Table.{IsTable, insert-IsTable, lookup-id}

-- A task object of one state and the same object later. It is started only from the queue, with its
-- cancel event clear; it does not come back to the queue; and a finished one keeps its status.
pub record IsLater (s : UploadTaskManager) (t u : UploadTask) : Type 0 where
  pub id : u.id ≡ t.id
  pub event : u.cancel_event ≡ t.cancel_event
  pub final : is_terminal t.status ≡ true → u.status ≡ t.status
  pub waits : is_pending u.status ≡ true → is_pending t.status ≡ true
  pub starts :
      u.status ≡ UploadStatus.running
      → (t.status ≡ UploadStatus.running)
        ⊎ ((is_pending t.status ≡ true) × (s.is_set t.cancel_event ≡ false))

-- What a step leaves of a task. One that is not finished leaves the table only with its cancel event
-- set.
unfoldable pub Later :
    UploadTaskManager → UploadTaskManager → UploadTask → Option UploadTask → Type 0
Later s s' t none = (is_terminal t.status ≡ true) ⊎ (s'.is_set t.cancel_event ≡ true)
Later s s' t (some u) = IsLater s t u

-- a table stays a table, and what holds of a task follows
pub record Follows (s s' : UploadTaskManager) : Type 0 where
  pub table : IsTable s.tasks → IsTable s'.tasks
  pub later :
      (x : String) (t : UploadTask)
      → IsTable s.tasks
      → lookup x s.tasks ≡ some t
      → Later s s' t (lookup x s'.tasks)

pub IsLater-refl : (s : UploadTaskManager) (t : UploadTask) → IsLater s t t
IsLater-refl s t = record {
  id = refl;
  event = refl;
  final = λ h. refl;
  waits = λ h. h;
  starts = λ h. inl h;
}

pub Follows-refl : (s : UploadTaskManager) → Follows s s
unfolding Later
Follows-refl s = record {
  table = λ h. h;
  later = λ x t h e. subst (Later s s t) (sym e) (IsLater-refl s t);
}

-- a write to a task that is there, with the events set or not
pub put-Follows :
    (s s' : UploadTaskManager) (id : String) (t v : UploadTask)
    → lookup id s.tasks ≡ some t
    → s'.tasks ≡ insert id v s.tasks
    → IsLater s t v
    → Follows s s'
unfolding Later
put-Follows s s' id t v e w l = record {
  table = λ h.
      subst IsTable (sym w) (insert-IsTable id v s.tasks (l.id ∙ lookup-id id t s.tasks h e) h);
  later = λ x u h f. subst (Later s s' u) (sym (ap (lookup x) w ∙ lookup-insert id x v s.tasks)) (
      if_known (Later s s' u) (str_eq id x)
        (λ same.
          subst (λ o. IsLater s o v)
            (some_inj.0 (sym e ∙ ap (λ k. lookup k s.tasks) ((eq_iff id x).0 same) ∙ f)) l)
        (λ other. subst (Later s s' u) (sym f) (IsLater-refl s u)));
}

-- a write by one of the four operations that leave a finished task alone
change_active-Follows :
    (f : UploadTask → UploadTask) (id : String) (o : Option UploadTask) (s : UploadTaskManager)
    → lookup id s.tasks ≡ o
    → ((t : UploadTask) → is_terminal t.status ≡ false → IsLater s t (f t))
    → Follows s (change_active f id o s)
unfolding change_active
change_active-Follows f id none s e l = Follows-refl s
change_active-Follows f id (some t) s e l =
    if_known (Follows s) (is_terminal t.status) (λ h. Follows-refl s)
      (λ h. put-Follows s (put id (f t) s) id t (f t) e refl (l t h))

-- a write that keeps the status
same_status :
    (s : UploadTaskManager) (t u : UploadTask)
    → u.id ≡ t.id
    → u.cancel_event ≡ t.cancel_event
    → u.status ≡ t.status
    → IsLater s t u
same_status s t u i e h = record {
  id = i;
  event = e;
  final = λ g. h;
  waits = λ g. ap is_pending (sym h) ∙ g;
  starts = λ g. inl (sym h ∙ g);
}

pub start_file-Follows :
    (id : String) (index : ℕ) (filename : String) (s : UploadTaskManager)
    → Follows s (start_file id index filename s)
unfolding start_file started
start_file-Follows id index filename s =
    change_active-Follows (started index filename) id (lookup id s.tasks) s refl
      (λ t h. same_status s t (started index filename t) refl refl refl)

pub mark_file_done-Follows : (id : String) (s : UploadTaskManager) → Follows s (mark_file_done id s)
unfolding mark_file_done one_more
mark_file_done-Follows id s =
    change_active-Follows one_more id (lookup id s.tasks) s refl
      (λ t h. same_status s t (one_more t) refl refl refl)

pub update_progress-Follows :
    (id : String) (e : ProgressEvent) (s : UploadTaskManager) → Follows s (update_progress id e s)
unfolding update_progress progressed
update_progress-Follows id e s =
    change_active-Follows (progressed e) id (lookup id s.tasks) s refl
      (λ t h. same_status s t (progressed e t) refl refl refl)

pub set_result-Follows :
    (id : String) (r : Dict String) (o : Option UploadTask) (s : UploadTaskManager)
    → lookup id s.tasks ≡ o
    → Follows s (result_found id r o s)
unfolding result_found
set_result-Follows id r none s e = Follows-refl s
set_result-Follows id r (some t) s e =
    let u : UploadTask = record t { result = some r } in
    put-Follows s (put id u s) id t u e refl (same_status s t u refl refl refl)

pub pending_active : (status : UploadStatus) → is_pending status ≡ true → is_terminal status ≡ false
unfolding is_pending is_terminal
pending_active UploadStatus.pending h = refl
pending_active UploadStatus.running h = refl
pending_active UploadStatus.completed h = sym h
pending_active UploadStatus.failed h = sym h
pending_active UploadStatus.cancelled h = sym h

-- the status that the end of the work gives
pub status_of-IsLater :
    (outcome : Outcome) (error : Option String) (s : UploadTaskManager) (t : UploadTask)
    → is_terminal t.status ≡ false
    → IsLater s t (finalized (status_of outcome) error t)
unfolding finalized is_pending
status_of-IsLater returned error s t h = record {
  id = refl;
  event = refl;
  final = λ g. cc;
  waits = λ g. cc;
  starts = λ g. cc;
}
status_of-IsLater was_cancelled error s t h = record {
  id = refl;
  event = refl;
  final = λ g. cc;
  waits = λ g. cc;
  starts = λ g. cc;
}
status_of-IsLater (raised e) error s t h = record {
  id = refl;
  event = refl;
  final = λ g. cc;
  waits = λ g. cc;
  starts = λ g. cc;
}

pub finalize-Follows :
    (id : String) (outcome : Outcome) (error : Option String) (s : UploadTaskManager)
    → Follows s (finalize id (status_of outcome) error s)
unfolding finalize
finalize-Follows id outcome error s =
    change_active-Follows (finalized (status_of outcome) error) id (lookup id s.tasks) s refl
      (status_of-IsLater outcome error s)

pub start_found-Follows :
    (id : String) (o : Option UploadTask) (s : UploadTaskManager)
    → lookup id s.tasks ≡ o
    → Follows s (start_found id o s).1
unfolding start_found
start_found-Follows id none s e = Follows-refl s
start_found-Follows id (some t) s e =
    let u : UploadTask = record t { status = UploadStatus.running } in
    if_known (λ (r : Bool × UploadTaskManager). Follows s r.1)
      (is_pending t.status && not (s.is_set t.cancel_event))
      (λ h. put-Follows s (put id u s) id t u e refl (started_now h)) (λ h. Follows-refl s)
  where
    started_now :
        (is_pending t.status && not (s.is_set t.cancel_event)) ≡ true
        → IsLater s t (record t { status = UploadStatus.running })
    started_now h = record {
      id = refl;
      event = refl;
      final = λ g. ground (arith, h, g, pending_active t.status);
      waits = λ g. ground (arith, h);
      starts = λ g. inr (ground (arith, h), ground (arith, h));
    }
