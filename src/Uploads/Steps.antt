-- ===== src/Uploads/Steps.antt =====
-- Everything that changes the upload tasks, as steps in any order, with the coroutines of `run` that
-- wait at the semaphore or work (src/thumbelina/rag/pipeline/upload_tasks.py).
use thumbelina.Prelude.{
  ℕ, ◌<◌, String, Bool, true, none, List, ◌∷◌, ◌++◌, Dict, lookup, ◌≡◌, if◌then◌else◌,
}
use thumbelina.Uploads.{
  ProgressEvent, UploadTaskManager, Outcome, create, remove, cancel, cancel_by_kb, start_file,
  mark_file_done, update_progress, set_result, run_begin, run_enter, run_end,
}

pub record System : Type 0 where
  pub manager : UploadTaskManager
  pub waiting : List String
  pub workers : List String

-- the coroutine that had waited has the semaphore, and works or has ended
abbrev pub entered : Bool × UploadTaskManager → String → List String → System → System
entered r id waiting s = record {
  manager = r.1;
  waiting = waiting;
  workers = if r.0 then id ∷ s.workers else s.workers;
}

-- The id of a new task is one that no task has.
pub data Step (s : System) : System → Type 0 where
  creates :
      (id kb_id kind label : String) (total_files now : ℕ)
      → lookup id s.manager.tasks ≡ none
      → Step s (record s { manager = (create id kb_id kind label total_files now s.manager).1 })
  removes : (id : String) → Step s (record s { manager = (remove id s.manager).1 })
  cancels : (id : String) → Step s (record s { manager = (cancel id s.manager).1 })
  cancels_all : (kb_id : String) → Step s (record s { manager = (cancel_by_kb kb_id s.manager).1 })
  starts_file :
      (id : String) (index : ℕ) (filename : String)
      → Step s (record s { manager = start_file id index filename s.manager })
  marks_file : (id : String) → Step s (record s { manager = mark_file_done id s.manager })
  progresses :
      (id : String) (e : ProgressEvent)
      → Step s (record s { manager = update_progress id e s.manager })
  sets_result :
      (id : String) (r : Dict String) → Step s (record s { manager = set_result id r s.manager })
  run_waits :
      (id : String) → run_begin id s.manager ≡ true → Step s (record s { waiting = id ∷ s.waiting })
  run_enters :
      (id : String) (before after : List String)
      → s.waiting ≡ before ++ id ∷ after
      → 0 < s.manager.permits
      → Step s (entered (run_enter id s.manager) id (before ++ after) s)
  run_ends :
      (id : String) (before after : List String) (outcome : Outcome)
      → s.workers ≡ before ++ id ∷ after
      → Step s (record s { manager = run_end id outcome s.manager; workers = before ++ after })

pub data Steps (s : System) : System → Type 0 where
  here : Steps s s
  next : {t u : System} → Steps s t → Step t u → Steps s u
