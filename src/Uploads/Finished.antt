-- ===== src/Uploads/Finished.antt =====
-- Eviction leaves no more finished tasks than the table may keep
-- (src/thumbelina/rag/pipeline/upload_tasks.py).
use thumbelina.Prelude.{
  ℕ, zero, suc, ◌-◌, ◌≤◌, String, true, List, [], ◌∷◌, Dict, pop, str_eq, eq_iff, eq_refl, leb,
  take, length, if◌then◌else◌, if_known, ◌≡◌, refl, sym, ap, ◌∙◌, arith,
}
use thumbelina.Uploads.{
  UploadTask, finished_of, insert_by_age, sort_by_age, pop_each, evict_finished, max_finished_tasks,
}
use thumbelina.Uploads.Table.{IsTable, pop-IsTable, named}

-- how many of the tasks have no id of the others
unfoldable left : List UploadTask → List UploadTask → ℕ
left ts [] = 0
left ts (u ∷ us) = let rest = left ts us in if named ts u.id then rest else suc rest

unfoldable less : String → List UploadTask → List UploadTask
less k [] = []
less k (u ∷ us) = let rest = less k us in if str_eq u.id k then rest else u ∷ rest

finished_of-pop :
    (k : String) (d : Dict UploadTask) → IsTable d → finished_of (pop k d) ≡ less k (finished_of d)
unfolding IsTable finished_of pop less
finished_of-pop k [] h = refl
finished_of-pop k ((j, u) ∷ d) h = ground (arith, h.0, finished_of-pop k d h.2)

left_nil : (us : List UploadTask) → left [] us ≡ length us
unfolding left named
left_nil [] = refl
left_nil (u ∷ us) = ap suc (left_nil us)

left-less : (t : UploadTask) (ts us : List UploadTask) → left ts (less t.id us) ≡ left (t ∷ ts) us
unfolding left less named
left-less t ts [] = refl
left-less t ts (u ∷ us) = ground (arith, left-less t ts us, eq_iff u.id t.id, eq_iff t.id u.id)

length-finished_of :
    (ts : List UploadTask) (d : Dict UploadTask)
    → IsTable d
    → length (finished_of (pop_each ts d)) ≡ left ts (finished_of d)
unfolding pop_each
length-finished_of [] d h = sym (left_nil (finished_of d))
length-finished_of (t ∷ ts) d h =
    length-finished_of ts (pop t.id d) (pop-IsTable t.id d h)
    ∙ ap (left ts) (finished_of-pop t.id d h)
    ∙ left-less t ts (finished_of d)

left-insert_by_age :
    (ts : List UploadTask) (t : UploadTask) (us : List UploadTask)
    → left ts (insert_by_age t us) ≡ left ts (t ∷ us)
unfolding left insert_by_age
left-insert_by_age ts t [] = refl
left-insert_by_age ts t (u ∷ us) = ground (arith, left-insert_by_age ts t us)

left-sort_by_age : (ts us : List UploadTask) → left ts (sort_by_age us) ≡ left ts us
unfolding left sort_by_age
left-sort_by_age ts [] = refl
left-sort_by_age ts (u ∷ us) =
    left-insert_by_age ts u (sort_by_age us)
    ∙ ap (λ n. if named ts u.id then n else suc n) (left-sort_by_age ts us)

left-take :
    (n : ℕ) (ts us : List UploadTask)
    → ((x : String) → named (take n us) x ≡ true → named ts x ≡ true)
    → left ts us ≤ length us - n
unfolding left named
left-take zero ts [] h = omega arith
left-take zero ts (u ∷ us) h = ground (arith, left-take zero ts us (λ x. cc))
left-take (suc n) ts [] h = omega arith
left-take (suc n) ts (u ∷ us) h = ground (
  arith,
  left-take n ts us (λ x m. h x (ground (arith, m))),
  h u.id (ground (arith, eq_refl u.id)),
)

length-sort_by_age : (us : List UploadTask) → length (sort_by_age us) ≡ length us
length-sort_by_age us = sym (left_nil (sort_by_age us)) ∙ left-sort_by_age [] us ∙ left_nil us

pub evict_finished_bound :
    (d : Dict UploadTask) → IsTable d → length (finished_of (evict_finished d)) ≤ max_finished_tasks
unfolding evict_finished
evict_finished_bound d h =
    let fs = finished_of d in
    let n = length fs - max_finished_tasks in
    let ts = take n (sort_by_age fs) in
    if_known (λ d'. length (finished_of d') ≤ max_finished_tasks)
      (leb (length fs) max_finished_tasks) (λ yes. ground (arith, yes))
      (λ no. ground (
        arith,
        no,
        length-finished_of ts d h,
        left-sort_by_age ts fs,
        length-sort_by_age fs,
        left-take n ts (sort_by_age fs) (λ x m. m),
      ))
