-- ===== src/Uploads.antt =====
-- The upload tasks of the retrieval pipeline (src/thumbelina/rag/pipeline/upload_tasks.py). The table
-- holds a task object at its id; the cancel events, which workers hold on to after their task is
-- removed, stand in a store of their own, by number. The generated id and the clock are arguments.
pub mod Steps
pub mod Table
pub mod Statuses
pub mod Withdrawn
pub mod Finished
pub mod History
pub mod Idle
pub mod Places
pub mod Workers
mod Examples
use thumbelina.Prelude.{
  ℕ, suc, ◌+◌, ◌-◌, String, Bool, true, false, not, ◌&&◌, ◌||◌, Option, none, some, List, [], ◌∷◌,
  map, Dict, lookup, insert, pop, is_some, str_eq, ltb, leb, ◌==◌, keep, take, length,
  if◌then◌else◌,
}

pub data UploadStatus : Type 0 where
  pending running completed failed cancelled : UploadStatus

-- `status in TERMINAL_STATUSES`
unfoldable pub is_terminal : UploadStatus → Bool
is_terminal UploadStatus.pending = false
is_terminal UploadStatus.running = false
is_terminal _ = true

unfoldable pub is_pending : UploadStatus → Bool
is_pending UploadStatus.pending = true
is_pending _ = false

-- the values of `result` as text
pub record UploadTask : Type 0 where
  pub id : String
  pub kb_id : String
  pub kind : String
  pub label : String
  pub status : UploadStatus
  pub stage : String
  pub total_files : ℕ
  pub done_files : ℕ
  pub current_file : String
  pub chunk_done : ℕ
  pub chunk_total : ℕ
  pub error : Option String
  pub result : Option (Dict String)
  pub created_at : ℕ
  pub cancel_event : ℕ

pub record ProgressEvent : Type 0 where
  pub stage : String
  pub file_index : ℕ
  pub total_files : ℕ
  pub chunk_done : ℕ
  pub chunk_total : ℕ
  pub filename : String

pub record UploadTaskManager : Type 0 where
  pub tasks : Dict UploadTask
  -- the free places of the semaphore
  pub permits : ℕ
  -- whether each cancel event is set
  pub is_set : ℕ → Bool
  pub next_event : ℕ

abbrev pub max_finished_tasks : ℕ
max_finished_tasks = 50

abbrev pub set_event : ℕ → UploadTaskManager → UploadTaskManager
set_event i s = record s { is_set = λ j. if i == j then true else s.is_set j }

-- `_tasks.values()`, less those that are not finished
unfoldable pub finished_of : Dict UploadTask → List UploadTask
finished_of [] = []
finished_of ((id, t) ∷ rest) =
    if is_terminal t.status then t ∷ finished_of rest else finished_of rest

-- `finished.sort(key=lambda t: t.created_at)`, which is stable
unfoldable pub insert_by_age : UploadTask → List UploadTask → List UploadTask
insert_by_age t [] = t ∷ []
insert_by_age t (u ∷ us) =
    let rest = insert_by_age t us in if leb t.created_at u.created_at then t ∷ u ∷ us else u ∷ rest

unfoldable pub sort_by_age : List UploadTask → List UploadTask
sort_by_age [] = []
sort_by_age (t ∷ ts) = insert_by_age t (sort_by_age ts)

unfoldable pub pop_each : List UploadTask → Dict UploadTask → Dict UploadTask
pop_each [] d = d
pop_each (t ∷ ts) d = pop_each ts (pop t.id d)

-- `_evict_finished`
unfoldable pub evict_finished : Dict UploadTask → Dict UploadTask
evict_finished d =
    let finished = finished_of d in
    if leb (length finished) max_finished_tasks
    then d
    else pop_each (take (length finished - max_finished_tasks) (sort_by_age finished)) d

abbrev pub new_task : String → String → String → String → ℕ → ℕ → ℕ → UploadTask
new_task id kb_id kind label total_files created_at event = record {
  id = id;
  kb_id = kb_id;
  kind = kind;
  label = label;
  status = UploadStatus.pending;
  stage = "queued";
  total_files = total_files;
  done_files = 0;
  current_file = "";
  chunk_done = 0;
  chunk_total = 0;
  error = none;
  result = none;
  created_at = created_at;
  cancel_event = event;
}

unfoldable pub create :
    String → String → String → String → ℕ → ℕ → UploadTaskManager → UploadTask × UploadTaskManager
create id kb_id kind label total_files now s =
    let task = new_task id kb_id kind label total_files now s.next_event in
    (
      task,
      record s {
        tasks = evict_finished (insert id task s.tasks);
        is_set = λ j. if s.next_event == j then false else s.is_set j;
        next_event = suc s.next_event;
      },
    )

-- `sorted(tasks, key=lambda t: t.created_at, reverse=True)`, which is stable too
unfoldable pub insert_by_newest : UploadTask → List UploadTask → List UploadTask
insert_by_newest t [] = t ∷ []
insert_by_newest t (u ∷ us) =
    let rest = insert_by_newest t us in
    if leb u.created_at t.created_at then t ∷ u ∷ us else u ∷ rest

unfoldable pub sort_by_newest : List UploadTask → List UploadTask
sort_by_newest [] = []
sort_by_newest (t ∷ ts) = insert_by_newest t (sort_by_newest ts)

unfoldable pub list_by_kb : String → UploadTaskManager → List UploadTask
list_by_kb kb_id s = sort_by_newest (keep (λ t. str_eq t.kb_id kb_id) (map (λ e. e.1) s.tasks))

-- `get_cancel_event`
unfoldable pub get_cancel_event : String → UploadTaskManager → Option ℕ
get_cancel_event id s = elim (lookup id s.tasks) [ none ↦ none | some t ↦ some t.cancel_event ]

unfoldable pub remove_found :
    String → Option UploadTask → UploadTaskManager → Bool × UploadTaskManager
remove_found id none s = (false, s)
remove_found id (some t) s = (true, set_event t.cancel_event (record s { tasks = pop id s.tasks }))

unfoldable pub remove : String → UploadTaskManager → Bool × UploadTaskManager
remove id s = remove_found id (lookup id s.tasks) s

abbrev pub put : String → UploadTask → UploadTaskManager → UploadTaskManager
put id t s = record s { tasks = insert id t s.tasks }

-- `cancel` behind its first test
unfoldable pub cancel_active : String → UploadTask → UploadTaskManager → UploadTaskManager
cancel_active id t s =
    if is_pending t.status
    then record s {
      tasks =
          evict_finished
            (insert id (record t { status = UploadStatus.cancelled; stage = "done" }) s.tasks);
    }
    else s

unfoldable pub cancel_found :
    String → Option UploadTask → UploadTaskManager → Bool × UploadTaskManager
cancel_found id none s = (false, s)
cancel_found id (some t) s =
    if is_terminal t.status
    then (false, s)
    else (true, cancel_active id t (set_event t.cancel_event s))

unfoldable pub cancel : String → UploadTaskManager → Bool × UploadTaskManager
cancel id s = cancel_found id (lookup id s.tasks) s

unfoldable pub active_in : String → Dict UploadTask → List String
active_in kb_id [] = []
active_in kb_id ((id, t) ∷ rest) =
    if str_eq t.kb_id kb_id && not (is_terminal t.status)
    then t.id ∷ active_in kb_id rest
    else active_in kb_id rest

unfoldable pub cancel_each : List String → UploadTaskManager → ℕ × UploadTaskManager
cancel_each [] s = (0, s)
cancel_each (id ∷ ids) s =
    let (done, s') = cancel id s in
    let (n, s'') = cancel_each ids s' in ((if done then suc n else n), s'')

unfoldable pub cancel_by_kb : String → UploadTaskManager → ℕ × UploadTaskManager
cancel_by_kb kb_id s = cancel_each (active_in kb_id s.tasks) s

-- The four operations that first test that the task is there and not finished, with what each
-- then writes.
unfoldable pub change_active :
    (UploadTask → UploadTask) → String → Option UploadTask → UploadTaskManager → UploadTaskManager
change_active f id none s = s
change_active f id (some t) s = if is_terminal t.status then s else put id (f t) s

unfoldable pub started : ℕ → String → UploadTask → UploadTask
started index filename t = record t {
  done_files = index;
  current_file = filename;
  chunk_done = 0;
  chunk_total = 0;
}

unfoldable pub start_file : String → ℕ → String → UploadTaskManager → UploadTaskManager
start_file id index filename s = change_active (started index filename) id (lookup id s.tasks) s

unfoldable pub one_more : UploadTask → UploadTask
one_more t = record t { done_files = suc t.done_files }

unfoldable pub mark_file_done : String → UploadTaskManager → UploadTaskManager
mark_file_done id s = change_active one_more id (lookup id s.tasks) s

unfoldable pub progressed : ProgressEvent → UploadTask → UploadTask
progressed e t = record t {
  stage = e.stage;
  current_file = if str_eq e.filename "" then t.current_file else e.filename;
  chunk_done = e.chunk_done;
  chunk_total = e.chunk_total;
  total_files = if ltb 0 e.total_files then e.total_files else t.total_files;
}

unfoldable pub update_progress : String → ProgressEvent → UploadTaskManager → UploadTaskManager
update_progress id e s = change_active (progressed e) id (lookup id s.tasks) s

unfoldable pub result_found :
    String → Dict String → Option UploadTask → UploadTaskManager → UploadTaskManager
result_found id r none s = s
result_found id r (some t) s = put id (record t { result = some r }) s

unfoldable pub set_result : String → Dict String → UploadTaskManager → UploadTaskManager
set_result id r s = result_found id r (lookup id s.tasks) s

-- `run` up to the semaphore: whether it goes on to wait there
unfoldable pub run_begin : String → UploadTaskManager → Bool
run_begin id s = elim (lookup id s.tasks) [ none ↦ false | some t ↦ is_pending t.status ]

unfoldable pub start_found :
    String → Option UploadTask → UploadTaskManager → Bool × UploadTaskManager
start_found id none s = (false, s)
start_found id (some t) s =
    if is_pending t.status && not (s.is_set t.cancel_event)
    then (true, put id (record t { status = UploadStatus.running }) s)
    else (false, s)

-- `_try_start`
unfoldable pub try_start : String → UploadTaskManager → Bool × UploadTaskManager
try_start id s = start_found id (lookup id s.tasks) s

-- `run` from the acquired semaphore to the call of `work`: whether it works; if not, it has released
-- the semaphore.
unfoldable pub run_enter : String → UploadTaskManager → Bool × UploadTaskManager
run_enter id s =
    let (working, s') = try_start id s in
    (working, if working then record s' { permits = s'.permits - 1 } else s')

-- how `work` ends: it returns, is cancelled, or raises
pub data Outcome : Type 0 where
  returned was_cancelled : Outcome
  raised : String → Outcome

abbrev pub status_of : Outcome → UploadStatus
status_of returned = UploadStatus.completed
status_of was_cancelled = UploadStatus.cancelled
status_of (raised e) = UploadStatus.failed

abbrev pub error_of : Outcome → Option String
error_of (raised e) = some e
error_of _ = none

abbrev pub is_completed : UploadStatus → Bool
is_completed UploadStatus.completed = true
is_completed _ = false

unfoldable pub finalized : UploadStatus → Option String → UploadTask → UploadTask
finalized status error t = record t {
  status = status;
  stage = "done";
  error = error;
  done_files = if is_completed status then t.total_files else t.done_files;
}

-- `_finalize`
unfoldable pub finalize :
    String → UploadStatus → Option String → UploadTaskManager → UploadTaskManager
finalize id status error s = change_active (finalized status error) id (lookup id s.tasks) s

-- `run` from the end of `work`, with the release of the semaphore
unfoldable pub run_end : String → Outcome → UploadTaskManager → UploadTaskManager
run_end id outcome s =
    let s' = finalize id (status_of outcome) (error_of outcome) s in
    record s' { permits = suc s'.permits }
