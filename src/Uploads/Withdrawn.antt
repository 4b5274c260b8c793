-- ===== src/Uploads/Withdrawn.antt =====
-- What the removal and the cancellation of tasks do to the others
-- (src/thumbelina/rag/pipeline/upload_tasks.py).
use mathlib.Core.Option.{some_inj}
use mathlib.Core.Path.{subst}
use thumbelina.Prelude.{
  ℕ, String, Bool, true, false, Option, none, some, List, [], ◌∷◌, Dict, lookup, insert, pop,
  lookup-insert, lookup-pop, str_eq, eq_iff, if_both, if_known, ◌≡◌, refl, sym, ap, ◌∙◌, ◌⊎◌, inl,
  inr, arith, Bool-cases, Option-cases,
}
use thumbelina.Uploads.{
  UploadStatus, UploadTask, UploadTaskManager, is_terminal, is_pending, evict_finished, set_event,
  new_task, create, remove_found, cancel_active, cancel_found, cancel, cancel_each,
}
use thumbelina.Uploads.Table.{
  IsTable, insert-IsTable, pop-IsTable, lookup-id, evict_finished-IsTable, lookup-evict_finished,
  gone-evict_finished,
}
use thumbelina.Uploads.Statuses.{IsLater, Later, Follows, Follows-refl, IsLater-refl}

pub remove-Follows :
    (id : String) (o : Option UploadTask) (s : UploadTaskManager)
    → lookup id s.tasks ≡ o
    → Follows s (remove_found id o s).1
unfolding remove_found Later
remove-Follows id none s e = Follows-refl s
remove-Follows id (some t) s e =
    let s' = set_event t.cancel_event (record s { tasks = pop id s.tasks }) in
    record {
      table = λ h. pop-IsTable id s.tasks h;
      later = λ x u h f. subst (Later s s' u) (sym (lookup-pop id x s.tasks)) (
          if_known (Later s s' u) (str_eq id x)
            (λ same.
              let v : t ≡ u =
                some_inj.0 (sym e ∙ ap (λ k. lookup k s.tasks) ((eq_iff id x).0 same) ∙ f) in
              inr (ground (arith, v)))
            (λ other. subst (Later s s' u) (sym f) (IsLater-refl s u)));
    }

-- an object that eviction leaves or takes
evicted-Later :
    (s s' : UploadTaskManager) (t u : UploadTask) (x : String) (d : Dict UploadTask)
    → IsTable d
    → lookup x d ≡ some u
    → IsLater s t u
    → (is_terminal u.status ≡ true → Later s s' t none)
    → Later s s' t (lookup x (evict_finished d))
unfolding Later
evicted-Later s s' t u x d h e l g = elim (lookup-evict_finished x u d h e) [
  | inl stays ↦ subst (Later s s' t) (sym stays) l
  | inr (gone, ended) ↦ subst (Later s s' t) (sym gone) (g ended)
]

pub create-Follows :
    (id kb_id kind label : String) (total_files now : ℕ) (s : UploadTaskManager)
    → lookup id s.tasks ≡ none
    → Follows s (create id kb_id kind label total_files now s).1
unfolding create Later
create-Follows id kb_id kind label total_files now s e =
    let task = new_task id kb_id kind label total_files now s.next_event in
    let grown = λ (h : IsTable s.tasks). insert-IsTable id task s.tasks refl h in
    record {
      table = λ h. evict_finished-IsTable (insert id task s.tasks) (grown h);
      later = λ x u h f.
          evicted-Later s (create id kb_id kind label total_files now s).1 u u x
            (insert id task s.tasks) (grown h)
            (lookup-insert id x task s.tasks ∙ ground (arith, eq_iff id x, e, f)) (IsLater-refl s u)
            inl;
    }

gone_found : {o : Option UploadTask} {u : UploadTask} → o ≡ none → o ≡ some u → ⊥
gone_found e f = cc

-- A change that ends a task only by setting its event, so that such changes compose.
pub record Withdraws (s s' : UploadTaskManager) : Type 0 where
  pub follows : Follows s s'
  sets : (i : ℕ) → s.is_set i ≡ true → s'.is_set i ≡ true
  gone : (x : String) → lookup x s.tasks ≡ none → lookup x s'.tasks ≡ none
  ended :
      (x : String) (t u : UploadTask)
      → IsTable s.tasks
      → lookup x s.tasks ≡ some t
      → lookup x s'.tasks ≡ some u
      → is_terminal u.status ≡ true
      → (is_terminal t.status ≡ true) ⊎ (s'.is_set t.cancel_event ≡ true)

Withdraws-refl : (s : UploadTaskManager) → Withdraws s s
Withdraws-refl s = record {
  follows = Follows-refl s;
  sets = λ i h. h;
  gone = λ x h. h;
  ended = λ x t u g e f h.
      inl (ap (λ (v : UploadTask). is_terminal v.status) (some_inj.0 (sym e ∙ f)) ∙ h);
}

IsLater-trans :
    (s s' : UploadTaskManager) (t u v : UploadTask)
    → ((i : ℕ) → s.is_set i ≡ true → s'.is_set i ≡ true)
    → IsLater s t u
    → IsLater s' u v
    → IsLater s t v
IsLater-trans s s' t u v w l m = record {
  id = m.id ∙ l.id;
  event = m.event ∙ l.event;
  final = λ h. m.final (ap is_terminal (l.final h) ∙ h) ∙ l.final h;
  waits = λ h. l.waits (m.waits h);
  starts = λ h. elim (m.starts h) [
    | inl running ↦ l.starts running
    | inr (waiting, clear) ↦ inr (l.waits waiting, ground (arith, w t.cancel_event, clear, l.event))
  ];
}

Later-trans :
    (s s' s'' : UploadTaskManager) (x : String) (t : UploadTask) (o : Option UploadTask)
    → Withdraws s s'
    → Withdraws s' s''
    → IsTable s.tasks
    → lookup x s.tasks ≡ some t
    → lookup x s'.tasks ≡ o
    → Later s s' t o
    → Later s s'' t (lookup x s''.tasks)
unfolding Later
Later-trans s s' s'' x t none w v h e f l =
    subst (Later s s'' t) (sym (v.gone x f)) (ground (arith, l, v.sets t.cancel_event))
Later-trans s s' s'' x t (some u) w v h e f l =
    onto (lookup x s''.tasks) (v.follows.later x u (w.follows.table h) f)
  where
    onto : (o : Option UploadTask) → Later s' s'' u o → Later s s'' t o
    onto none m = ground (arith, m, w.ended x t u h e f, v.sets t.cancel_event, l.event)
    onto (some y) m = IsLater-trans s s' t u y w.sets l m

still_ended :
    (s s' s'' : UploadTaskManager) (t y : UploadTask)
    → Withdraws s' s''
    → Later s s' t (some y)
    → (is_terminal y.status ≡ true) ⊎ (s''.is_set y.cancel_event ≡ true)
    → (is_terminal y.status ≡ true
        → (is_terminal t.status ≡ true) ⊎ (s'.is_set t.cancel_event ≡ true))
    → (is_terminal t.status ≡ true) ⊎ (s''.is_set t.cancel_event ≡ true)
unfolding Later
still_ended s s' s'' t y v l m n = ground (arith, m, n, v.sets t.cancel_event, l.event)

Withdraws-trans :
    (s s' s'' : UploadTaskManager) → Withdraws s s' → Withdraws s' s'' → Withdraws s s''
Withdraws-trans s s' s'' w v = record {
  follows = record {
    table = λ h. v.follows.table (w.follows.table h);
    later = λ x t h e.
        Later-trans s s' s'' x t (lookup x s'.tasks) w v h e refl (w.follows.later x t h e);
  };
  sets = λ i h. v.sets i (w.sets i h);
  gone = λ x h. v.gone x (w.gone x h);
  ended = λ x t u g e f h. elim (Option-cases (lookup x s'.tasks)) [
    | inl gone ↦ absurd (gone_found (v.gone x gone) f)
    | inr (y, at) ↦
        let l : Later s s' t (some y) = subst (Later s s' t) at (w.follows.later x t g e) in
        still_ended s s' s'' t y v l (v.ended x y u (w.follows.table g) at f h)
          (w.ended x t y g e at)
  ];
}

-- the cancelled object, put into the table and followed by an eviction
cancelled_of : UploadTask → UploadTask
cancelled_of t = record t { status = UploadStatus.cancelled; stage = "done" }

cancelled-IsLater :
    (s : UploadTaskManager) (t : UploadTask)
    → is_terminal t.status ≡ false
    → IsLater s t (cancelled_of t)
unfolding cancelled_of is_pending
cancelled-IsLater s t h = record {
  id = refl;
  event = refl;
  final = λ g. cc;
  waits = λ g. cc;
  starts = λ g. cc;
}

-- the cancellation of a task of the queue
module _ (id : String) (t : UploadTask) (s : UploadTaskManager) (e : lookup id s.tasks ≡ some t)
    (active : is_terminal t.status ≡ false) where
  abbrev put_cancelled : Dict UploadTask
  put_cancelled = insert id (cancelled_of t) s.tasks

  abbrev after : UploadTaskManager
  after = record (set_event t.cancel_event s) { tasks = evict_finished put_cancelled }

  kept : IsTable s.tasks → IsTable put_cancelled
  unfolding cancelled_of
  kept h = insert-IsTable id (cancelled_of t) s.tasks (lookup-id id t s.tasks h e) h

  same_task : (x : String) {y : UploadTask} → str_eq id x ≡ true → lookup x s.tasks ≡ some y → t ≡ y
  same_task x same f = some_inj.0 (sym e ∙ ap (λ k. lookup k s.tasks) ((eq_iff id x).0 same) ∙ f)

  lookup_same : (x : String) → str_eq id x ≡ true → lookup x put_cancelled ≡ some (cancelled_of t)
  lookup_same x same = lookup-insert id x (cancelled_of t) s.tasks ∙ ground (arith, same)

  lookup_other : (x : String) → str_eq id x ≡ false → lookup x put_cancelled ≡ lookup x s.tasks
  lookup_other x other = lookup-insert id x (cancelled_of t) s.tasks ∙ ground (arith, other)

  cancelled-Later :
      (x : String) (y : UploadTask)
      → IsTable s.tasks
      → lookup x s.tasks ≡ some y
      → Later s after y (lookup x (evict_finished put_cancelled))
  unfolding Later
  cancelled-Later x y h f = elim (Bool-cases (str_eq id x)) [
    | inl same ↦
        subst (λ z. Later s after z (lookup x (evict_finished put_cancelled))) (same_task x same f)
          (evicted-Later s after t (cancelled_of t) x put_cancelled (kept h) (lookup_same x same)
            (cancelled-IsLater s t active) (λ g. inr (ground arith)))
    | inr other ↦
        evicted-Later s after y y x put_cancelled (kept h) (lookup_other x other ∙ f)
          (IsLater-refl s y) inl
  ]

  cancelled_ended :
      (x : String) (y v : UploadTask)
      → IsTable s.tasks
      → lookup x s.tasks ≡ some y
      → lookup x (evict_finished put_cancelled) ≡ some v
      → is_terminal v.status ≡ true
      → (is_terminal y.status ≡ true) ⊎ (after.is_set y.cancel_event ≡ true)
  cancelled_ended x y v h f g k = elim (Bool-cases (str_eq id x)) [
    | inl same ↦ inr (ground (arith, ap (λ (z : UploadTask). z.cancel_event) (same_task x same f)))
    | inr other ↦
        elim (lookup-evict_finished x y put_cancelled (kept h) (lookup_other x other ∙ f)) [
          | inl stays ↦
              inl (ap (λ (z : UploadTask). is_terminal z.status) (some_inj.0 (sym stays ∙ g)) ∙ k)
          | inr (gone, ended) ↦ inl ended
        ]
  ]

  cancelled_gone :
      (x : String) → lookup x s.tasks ≡ none → lookup x (evict_finished put_cancelled) ≡ none
  cancelled_gone x h = elim (Bool-cases (str_eq id x)) [
    | inl same ↦ absurd (gone_found (ap (λ k. lookup k s.tasks) ((eq_iff id x).0 same) ∙ h) e)
    | inr other ↦ gone-evict_finished x put_cancelled (lookup_other x other ∙ h)
  ]

  cancel_pending-Withdraws : Withdraws s after
  cancel_pending-Withdraws = record {
    follows = record {
      table = λ h. evict_finished-IsTable put_cancelled (kept h);
      later = cancelled-Later;
    };
    sets = λ i h. ground (arith, h);
    gone = cancelled_gone;
    ended = cancelled_ended;
  }

-- the cancellation of a task that runs sets its event
set_event-Withdraws : (i : ℕ) (s : UploadTaskManager) → Withdraws s (set_event i s)
unfolding Later
set_event-Withdraws i s = record {
  follows = record {
    table = λ h. h;
    later = λ x t h e. subst (Later s (set_event i s) t) (sym e) (IsLater-refl s t);
  };
  sets = λ j h. ground (arith, h);
  gone = λ x h. h;
  ended = λ x t u g e f h.
      inl (ap (λ (v : UploadTask). is_terminal v.status) (some_inj.0 (sym e ∙ f)) ∙ h);
}

cancel_found-Withdraws :
    (id : String) (o : Option UploadTask) (s : UploadTaskManager)
    → lookup id s.tasks ≡ o
    → Withdraws s (cancel_found id o s).1
unfolding cancel_found cancel_active cancelled_of
cancel_found-Withdraws id none s e = Withdraws-refl s
cancel_found-Withdraws id (some t) s e =
    if_known (λ (r : Bool × UploadTaskManager). Withdraws s r.1) (is_terminal t.status)
      (λ h. Withdraws-refl s)
      (λ h.
        if_both (Withdraws s) (is_pending t.status) (cancel_pending-Withdraws id t s e h)
          (set_event-Withdraws t.cancel_event s))

pub cancel-Withdraws : (id : String) (s : UploadTaskManager) → Withdraws s (cancel id s).1
unfolding cancel
cancel-Withdraws id s = cancel_found-Withdraws id (lookup id s.tasks) s refl

pub cancel_each-Withdraws :
    (ids : List String) (s : UploadTaskManager) → Withdraws s (cancel_each ids s).1
unfolding cancel_each
cancel_each-Withdraws [] s = Withdraws-refl s
cancel_each-Withdraws (id ∷ ids) s =
    let s' = (cancel id s).1 in
    Withdraws-trans s s' (cancel_each ids s').1 (cancel-Withdraws id s)
      (cancel_each-Withdraws ids s')
