-- ===== src/Uploads/Examples.antt =====
-- One upload from its creation into its work (src/thumbelina/rag/pipeline/upload_tasks.py).
use thumbelina.Prelude.{
  ◌+◌, ◌≤◌, String, true, none, some, [], ◌∷◌, lookup, insert, length, contains, ◌≡◌, refl, arith,
}
use thumbelina.Uploads.{
  UploadStatus, UploadTask, is_terminal, is_pending, finished_of, evict_finished,
  max_finished_tasks, create, remove, cancel, run_begin, run_enter, start_found, try_start,
}
use thumbelina.Uploads.Statuses.{Later}
use thumbelina.Uploads.Steps.{
  System, Steps, entered, here, next, creates, removes, run_waits, run_enters,
}
use thumbelina.Uploads.History.{new_system, new_manager, life_cycle, finished_bound}
use thumbelina.Uploads.Workers.{running_is_worked_on}

abbrev created : System
created = record (new_system 1) {
  manager = (create "up-1" "kb" "file" "notes" 1 7 (new_manager 1)).1;
}

abbrev queued : System
queued = record created { waiting = "up-1" ∷ [] }

abbrev at_work : System
at_work = entered (run_enter "up-1" queued.manager) "up-1" [] queued

abbrev working : UploadTask
working = record {
  id = "up-1";
  kb_id = "kb";
  kind = "file";
  label = "notes";
  status = UploadStatus.running;
  stage = "queued";
  total_files = 1;
  done_files = 0;
  current_file = "";
  chunk_done = 0;
  chunk_total = 0;
  error = none;
  result = none;
  created_at = 7;
  cancel_event = 0;
}

to_work : Steps (new_system 1) at_work
unfolding create lookup insert evict_finished finished_of is_terminal run_begin is_pending run_enter
    try_start start_found
to_work =
    next (next (next here (creates "up-1" "kb" "file" "notes" 1 7 refl)) (run_waits "up-1" refl))
      (run_enters "up-1" [] [] refl (omega arith))

life_cycle_example :
    Later at_work.manager
      (remove "up-1" at_work.manager).1
      working
      (lookup "up-1" (remove "up-1" at_work.manager).1.tasks)
unfolding create lookup insert evict_finished finished_of is_terminal run_begin is_pending run_enter
    try_start start_found
life_cycle_example =
    life_cycle 1 at_work (record at_work { manager = (remove "up-1" at_work.manager).1 }) "up-1"
      working to_work (removes "up-1") refl

finished_bound_example :
    let m = at_work.manager in
    let (task, m') = create "up-2" "kb" "url" "page" 1 8 m in
    (lookup "up-2" m'.tasks ≡ some task)
    × (length (finished_of m'.tasks) ≤ max_finished_tasks)
    × ((x : String) (t : UploadTask)
        → lookup x m.tasks ≡ some t
        → is_pending t.status ≡ true
        → length (finished_of (cancel x m).1.tasks) ≤ max_finished_tasks)
finished_bound_example = finished_bound 1 at_work "up-2" "kb" "url" "page" 1 8 to_work

running_is_worked_on_example :
    (at_work.manager.permits + length at_work.workers ≡ 1)
    × ((x : String) (t : UploadTask)
        → lookup x at_work.manager.tasks ≡ some t
        → t.status ≡ UploadStatus.running
        → contains at_work.workers x ≡ true)
running_is_worked_on_example = running_is_worked_on 1 at_work to_work
