-- ===== src/Uploads/Table.antt =====
-- The table of upload tasks keeps each task at its own id, and eviction takes finished tasks only
-- (src/thumbelina/rag/pipeline/upload_tasks.py).
use mathlib.Core.Option.{some_inj}
use thumbelina.Prelude.{
  ℕ, zero, suc, ◌-◌, String, Bool, true, false, ◌||◌, Option, none, some, List, [], ◌∷◌, Dict,
  lookup, insert, pop, lookup-insert, lookup-pop, str_eq, eq_iff, leb, take, length, if◌then◌else◌,
  if_both, if_known, ◌≡◌, refl, sym, ap, ◌∙◌, ◌⊎◌, inl, inr, arith,
}
use thumbelina.Uploads.{
  UploadTask, is_terminal, finished_of, insert_by_age, sort_by_age, pop_each, evict_finished,
  max_finished_tasks,
}

-- each key once, and each task at its id
unfoldable pub IsTable : Dict UploadTask → Type 0
IsTable [] = Unit
IsTable ((k, t) ∷ d) = (t.id ≡ k) × (lookup k d ≡ none) × IsTable d

pub insert-IsTable :
    (k : String) (t : UploadTask) (d : Dict UploadTask)
    → t.id ≡ k
    → IsTable d
    → IsTable (insert k t d)
unfolding IsTable insert lookup
insert-IsTable k t [] e h = (e, refl, tt)
insert-IsTable k t ((j, u) ∷ d) e h =
    if_known IsTable (str_eq j k) (λ same. (e ∙ sym ((eq_iff j k).0 same), h.1, h.2))
      (λ other. (
        h.0,
        ground (arith, lookup-insert k j t d, eq_iff j k, eq_iff k j, other, h.1),
        insert-IsTable k t d e h.2,
      ))

pub pop-IsTable : (k : String) (d : Dict UploadTask) → IsTable d → IsTable (pop k d)
unfolding IsTable pop lookup
pop-IsTable k [] h = tt
pop-IsTable k ((j, u) ∷ d) h =
    if_both IsTable (str_eq j k) (pop-IsTable k d h.2)
      (h.0, ground (arith, lookup-pop k j d, h.1), pop-IsTable k d h.2)

pub lookup-id :
    (k : String) (t : UploadTask) (d : Dict UploadTask) → IsTable d → lookup k d ≡ some t → t.id ≡ k
unfolding IsTable lookup
lookup-id k t [] h e = cc
lookup-id k t ((j, u) ∷ d) h e =
    if_known (λ (o : Option UploadTask). o ≡ some t → t.id ≡ k) (str_eq j k)
      (λ same f. sym (ap (λ (x : UploadTask). x.id) (some_inj.0 f)) ∙ h.0 ∙ (eq_iff j k).0 same)
      (λ other f. lookup-id k t d h.2 f) e

-- one of the tasks has the id
unfoldable pub named : List UploadTask → String → Bool
named [] x = false
named (t ∷ ts) x = str_eq t.id x || named ts x

pop_each-IsTable :
    (ts : List UploadTask) (d : Dict UploadTask) → IsTable d → IsTable (pop_each ts d)
unfolding pop_each
pop_each-IsTable [] d h = h
pop_each-IsTable (t ∷ ts) d h = pop_each-IsTable ts (pop t.id d) (pop-IsTable t.id d h)

pub evict_finished-IsTable : (d : Dict UploadTask) → IsTable d → IsTable (evict_finished d)
unfolding evict_finished
evict_finished-IsTable d h =
    let fs = finished_of d in
    if_both IsTable (leb (length fs) max_finished_tasks) h
      (pop_each-IsTable (take (length fs - max_finished_tasks) (sort_by_age fs)) d h)

lookup-pop_each :
    (x : String) (ts : List UploadTask) (d : Dict UploadTask)
    → lookup x (pop_each ts d) ≡ (if named ts x then none else lookup x d)
unfolding pop_each named
lookup-pop_each x [] d = refl
lookup-pop_each x (t ∷ ts) d =
    ground (arith, lookup-pop_each x ts (pop t.id d), lookup-pop t.id x d)

named-insert_by_age :
    (x : String) (t : UploadTask) (us : List UploadTask)
    → named (insert_by_age t us) x ≡ (str_eq t.id x || named us x)
unfolding named insert_by_age
named-insert_by_age x t [] = refl
named-insert_by_age x t (u ∷ us) = ground (arith, named-insert_by_age x t us)

named-sort_by_age : (x : String) (ts : List UploadTask) → named (sort_by_age ts) x ≡ named ts x
unfolding named sort_by_age
named-sort_by_age x [] = refl
named-sort_by_age x (t ∷ ts) =
    named-insert_by_age x t (sort_by_age ts) ∙ ap (λ b. str_eq t.id x || b) (named-sort_by_age x ts)

named-take :
    (x : String) (n : ℕ) (ts : List UploadTask) → named (take n ts) x ≡ true → named ts x ≡ true
unfolding named
named-take x zero ts h = cc
named-take x (suc n) [] h = h
named-take x (suc n) (t ∷ ts) h = ground (arith, named-take x n ts, h)

absent-finished :
    (x : String) (d : Dict UploadTask)
    → IsTable d
    → lookup x d ≡ none
    → named (finished_of d) x ≡ false
unfolding IsTable named finished_of lookup
absent-finished x [] h e = refl
absent-finished x ((k, t) ∷ d) h e = ground (arith, h.0, absent-finished x d h.2, e)

named-finished :
    (x : String) (t : UploadTask) (d : Dict UploadTask)
    → IsTable d
    → lookup x d ≡ some t
    → named (finished_of d) x ≡ true
    → is_terminal t.status ≡ true
unfolding IsTable named finished_of lookup
named-finished x t [] h e n = cc
named-finished x t ((k, u) ∷ d) h e n =
    if_known (λ (o : Option UploadTask). o ≡ some t → is_terminal t.status ≡ true) (str_eq k x)
      (λ same f.
        let v : u ≡ t = some_inj.0 f in
        ground (arith, v, absent-finished k d h.2 h.1, (eq_iff k x).0 same, n))
      (λ other f. ground (arith, named-finished x t d h.2 f, h.0, n, other)) e

abbrev Stays : String → UploadTask → Dict UploadTask → Type 0
Stays x t d = (lookup x d ≡ some t) ⊎ ((lookup x d ≡ none) × (is_terminal t.status ≡ true))

-- What eviction leaves of a task: itself, or nothing where it is finished.
pub lookup-evict_finished :
    (x : String) (t : UploadTask) (d : Dict UploadTask)
    → IsTable d
    → lookup x d ≡ some t
    → (lookup x (evict_finished d) ≡ some t)
      ⊎ ((lookup x (evict_finished d) ≡ none) × (is_terminal t.status ≡ true))
unfolding evict_finished
lookup-evict_finished x t d h e =
    let fs = finished_of d in
    let n = length fs - max_finished_tasks in
    if_both (Stays x t) (leb (length fs) max_finished_tasks) (inl e) (
      if_known
        (λ (o : Option UploadTask).
          lookup x (pop_each (take n (sort_by_age fs)) d) ≡ o
          → Stays x t (pop_each (take n (sort_by_age fs)) d))
        (named (take n (sort_by_age fs)) x)
        (λ yes f. inr (
          f,
          named-finished x t d h e
              (sym (named-sort_by_age x fs) ∙ named-take x n (sort_by_age fs) yes),
        ))
        (λ no f. inl (f ∙ e)) (lookup-pop_each x (take n (sort_by_age fs)) d))

-- Eviction changes no task that it leaves.
pub evict_finished_kept :
    (x : String) (d : Dict UploadTask)
    → (lookup x (evict_finished d) ≡ lookup x d) ⊎ (lookup x (evict_finished d) ≡ none)
unfolding evict_finished
evict_finished_kept x d =
    let fs = finished_of d in
    let ts = take (length fs - max_finished_tasks) (sort_by_age fs) in
    let popped : (lookup x (pop_each ts d) ≡ lookup x d) ⊎ (lookup x (pop_each ts d) ≡ none) =
      ground (arith, lookup-pop_each x ts d) in
    if_both (λ (d' : Dict UploadTask). (lookup x d' ≡ lookup x d) ⊎ (lookup x d' ≡ none))
      (leb (length fs) max_finished_tasks) (inl refl) popped

pub gone-evict_finished :
    (x : String) (d : Dict UploadTask) → lookup x d ≡ none → lookup x (evict_finished d) ≡ none
gone-evict_finished x d e = elim (evict_finished_kept x d) [ inl same ↦ same ∙ e | inr gone ↦ gone ]
