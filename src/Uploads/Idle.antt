-- ===== src/Uploads/Idle.antt =====
-- The changes of the table of upload tasks that start no task
-- (src/thumbelina/rag/pipeline/upload_tasks.py).
use mathlib.Core.Path.{subst}
use thumbelina.Prelude.{
  String, Bool, true, false, Option, none, some, List, [], ◌∷◌, Dict, lookup, insert, pop,
  lookup-insert, lookup-pop, str_eq, eq_iff, if_both, if_known, ◌≡◌, sym, ap, ◌∙◌, inl, inr, arith,
}
use thumbelina.Uploads.{
  UploadStatus, UploadTask, UploadTaskManager, is_terminal, is_pending, evict_finished,
  remove_found, cancel_active, cancel_found, cancel, cancel_each, change_active, result_found,
}
use thumbelina.Uploads.Table.{evict_finished_kept}

unfoldable pub is_running : UploadStatus → Bool
is_running UploadStatus.running = true
is_running _ = false

unfoldable pub runs_in : Option UploadTask → Bool
runs_in none = false
runs_in (some t) = is_running t.status

-- whether the task of the id runs
abbrev pub runs : String → Dict UploadTask → Bool
runs x d = runs_in (lookup x d)

-- a change of the table that starts no task
abbrev pub Quiet : Dict UploadTask → Dict UploadTask → Type 0
Quiet d d' = (x : String) → runs x d' ≡ true → runs x d ≡ true

pub insert-Quiet :
    (id : String) (v : UploadTask) (d : Dict UploadTask)
    → (is_running v.status ≡ true → runs id d ≡ true)
    → Quiet d (insert id v d)
unfolding runs_in
insert-Quiet id v d h x r =
    if_known (λ (o : Option UploadTask). runs_in o ≡ true → runs x d ≡ true) (str_eq id x)
      (λ same e. subst (λ k. runs k d ≡ true) ((eq_iff id x).0 same) (h e)) (λ other e. e)
      (ap runs_in (sym (lookup-insert id x v d)) ∙ r)

pub pop-Quiet : (id : String) (d : Dict UploadTask) → Quiet d (pop id d)
unfolding runs_in
pop-Quiet id d x r =
    if_both (λ (o : Option UploadTask). runs_in o ≡ true → runs x d ≡ true) (str_eq id x) (λ e. cc)
      (λ e. e) (ap runs_in (sym (lookup-pop id x d)) ∙ r)

pub evict_finished-Quiet : (d : Dict UploadTask) → Quiet d (evict_finished d)
unfolding runs_in
evict_finished-Quiet d x r = elim (evict_finished_kept x d) [
  | inl same ↦ ap runs_in (sym same) ∙ r
  | inr gone ↦ ground (arith, ap runs_in gone, r)
]

-- an update of the object at an id that starts nothing
at_id :
    (id : String) (t v : UploadTask) (d : Dict UploadTask)
    → lookup id d ≡ some t
    → (is_running v.status ≡ true → is_running t.status ≡ true)
    → Quiet d (insert id v d)
unfolding runs_in
at_id id t v d e h = insert-Quiet id v d (λ r. ap runs_in e ∙ h r)

pub change_active-Quiet :
    (f : UploadTask → UploadTask) (id : String) (o : Option UploadTask) (s : UploadTaskManager)
    → lookup id s.tasks ≡ o
    → ((t : UploadTask) → is_running (f t).status ≡ true → is_running t.status ≡ true)
    → Quiet s.tasks (change_active f id o s).tasks
unfolding change_active
change_active-Quiet f id none s e h = λ x r. r
change_active-Quiet f id (some t) s e h =
    if_both (λ (s' : UploadTaskManager). Quiet s.tasks s'.tasks) (is_terminal t.status) (λ x r. r)
      (at_id id t (f t) s.tasks e (h t))

pub result_found-Quiet :
    (id : String) (r : Dict String) (o : Option UploadTask) (s : UploadTaskManager)
    → lookup id s.tasks ≡ o
    → Quiet s.tasks (result_found id r o s).tasks
unfolding result_found
result_found-Quiet id r none s e = λ x h. h
result_found-Quiet id r (some t) s e = at_id id t (record t { result = some r }) s.tasks e (λ h. h)

pub remove_found-Quiet :
    (id : String) (o : Option UploadTask) (s : UploadTaskManager)
    → Quiet s.tasks (remove_found id o s).1.tasks
unfolding remove_found
remove_found-Quiet id none s = λ x h. h
remove_found-Quiet id (some t) s = pop-Quiet id s.tasks

pub cancel_found-Quiet :
    (id : String) (o : Option UploadTask) (s : UploadTaskManager)
    → Quiet s.tasks (cancel_found id o s).1.tasks
unfolding cancel_found cancel_active is_running
cancel_found-Quiet id none s = λ x h. h
cancel_found-Quiet id (some t) s =
    let u : UploadTask = record t { status = UploadStatus.cancelled; stage = "done" } in
    if_both (λ (r : Bool × UploadTaskManager). Quiet s.tasks r.1.tasks) (is_terminal t.status)
      (λ x h. h)
      (if_both (λ (s' : UploadTaskManager). Quiet s.tasks s'.tasks) (is_pending t.status)
        (λ x h.
          insert-Quiet id u s.tasks (λ g. cc) x (evict_finished-Quiet (insert id u s.tasks) x h))
        (λ x h. h))

pub cancel_each-Quiet :
    (ids : List String) (s : UploadTaskManager) → Quiet s.tasks (cancel_each ids s).1.tasks
unfolding cancel_each cancel
cancel_each-Quiet [] s x h = h
cancel_each-Quiet (id ∷ ids) s x h =
    cancel_found-Quiet id (lookup id s.tasks) s x (cancel_each-Quiet ids (cancel id s).1 x h)
