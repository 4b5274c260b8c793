-- ===== src/Uploads/Places.antt =====
-- The operations on upload tasks that leave the semaphore alone
-- (src/thumbelina/rag/pipeline/upload_tasks.py).
use thumbelina.Prelude.{
  String, Bool, Option, none, some, List, [], ◌∷◌, Dict, lookup, if_both, ◌≡◌, refl, ◌∙◌,
}
use thumbelina.Uploads.{
  UploadTask, UploadTaskManager, is_terminal, is_pending, remove_found, cancel_active, cancel_found,
  cancel, cancel_each, change_active, result_found,
}

pub change_active-permits :
    (f : UploadTask → UploadTask) (id : String) (o : Option UploadTask) (s : UploadTaskManager)
    → (change_active f id o s).permits ≡ s.permits
unfolding change_active
change_active-permits f id none s = refl
change_active-permits f id (some t) s =
    if_both (λ (m : UploadTaskManager). m.permits ≡ s.permits) (is_terminal t.status) refl refl

pub result_found-permits :
    (id : String) (r : Dict String) (o : Option UploadTask) (s : UploadTaskManager)
    → (result_found id r o s).permits ≡ s.permits
unfolding result_found
result_found-permits id r none s = refl
result_found-permits id r (some t) s = refl

pub remove_found-permits :
    (id : String) (o : Option UploadTask) (s : UploadTaskManager)
    → (remove_found id o s).1.permits ≡ s.permits
unfolding remove_found
remove_found-permits id none s = refl
remove_found-permits id (some t) s = refl

pub cancel_found-permits :
    (id : String) (o : Option UploadTask) (s : UploadTaskManager)
    → (cancel_found id o s).1.permits ≡ s.permits
unfolding cancel_found cancel_active
cancel_found-permits id none s = refl
cancel_found-permits id (some t) s =
    if_both (λ (r : Bool × UploadTaskManager). r.1.permits ≡ s.permits) (is_terminal t.status) refl
      (if_both (λ (m : UploadTaskManager). m.permits ≡ s.permits) (is_pending t.status) refl refl)

pub cancel_each-permits :
    (ids : List String) (s : UploadTaskManager) → (cancel_each ids s).1.permits ≡ s.permits
unfolding cancel_each cancel
cancel_each-permits [] s = refl
cancel_each-permits (id ∷ ids) s =
    cancel_each-permits ids (cancel id s).1 ∙ cancel_found-permits id (lookup id s.tasks) s
