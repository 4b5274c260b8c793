-- ===== src/Plugins/Kahn.antt =====
-- One round of Kahn's algorithm (`resolve` of src/thumbelina/plugins/resolver.py).
use mathlib.Core.List.{append-nil}
use mathlib.Core.Path.{subst}
use thumbelina.Prelude.{
  ℕ, ◌+◌, ◌-◌, ◌≤◌, ◌<◌, String, Bool, true, false, ◌&&◌, List, [], ◌∷◌, ◌++◌, Dict, str_eq, eq_iff,
  eq_refl, contains, ◌≡◌, refl, sym, ap, append_assoc, arith, if◌then◌else◌, ltb, ◌==◌, length,
  length-append,
}
use thumbelina.Plugins.Resolver.{Search, degree, dependents, relax_one, relax, load, remaining}
use thumbelina.Plugins.Edges.{
  Edges, count, pending, targets, count-append, pending-load, contains-append, degree-insert,
}

-- a node whose last pending edge goes is queued
abbrev fires : ℕ → ℕ → ℕ
fires k n = if ltb 0 k && n == 0 then 1 else 0

-- the degree and the number of times in the queue after one decrement
abbrev queued : ℕ → Bool → ℕ
queued n hit = if hit && n == 0 then 1 else 0

relax_one-degree :
    (x d : String) (s : Search)
    → degree x (relax_one d s).in_degree
      ≡ (if str_eq d x then degree d s.in_degree - 1 else degree x s.in_degree)
unfolding relax_one
relax_one-degree x d s = degree-insert x d (degree d s.in_degree - 1) s.in_degree

relax_one-queue :
    (x d : String) (s : Search)
    → count x (relax_one d s).queue
      ≡ count x s.queue + queued (degree d s.in_degree - 1) (str_eq d x)
unfolding relax_one count
relax_one-queue x d s = ground (arith, count-append x s.queue (d ∷ []))

relax-degree :
    (x : String) (ds : List String) (s : Search)
    → count x ds ≤ degree x s.in_degree
    → degree x (relax ds s).in_degree + count x ds ≡ degree x s.in_degree
unfolding relax count
relax-degree x [] s h = omega arith
relax-degree x (d ∷ ds) s h =
    ground (arith, relax-degree x ds (relax_one d s), relax_one-degree x d s, eq_iff d x)

relax-queue :
    (x : String) (ds : List String) (s : Search)
    → count x ds ≤ degree x s.in_degree
    → count x (relax ds s).queue
      ≡ count x s.queue + fires (count x ds) (degree x (relax ds s).in_degree)
unfolding relax count
relax-queue x [] s h = omega arith
relax-queue x (d ∷ ds) s h = ground (
  arith,
  relax-queue x ds (relax_one d s),
  relax-degree x ds (relax_one d s),
  relax_one-degree x d s,
  relax_one-queue x d s,
  eq_iff d x,
)

relax-order : (ds : List String) (s : Search) → (relax ds s).load_order ≡ s.load_order
unfolding relax relax_one
relax-order [] s = refl
relax-order (d ∷ ds) s = relax-order ds (relax_one d s)

pub count-contains : (x : String) (xs : List String) → contains xs x ≡ ltb 0 (count x xs)
unfolding count
count-contains x [] = refl
count-contains x (y ∷ xs) = ground (arith, count-contains x xs)

pub length-remaining :
    (c : String) (order ns : List String)
    → contains order c ≡ false
    → length (remaining (order ++ c ∷ []) ns) + count c ns ≡ length (remaining order ns)
unfolding remaining count
length-remaining c order [] h = omega arith
length-remaining c order (n ∷ ns) h =
    ground (
      arith,
      length-remaining c order ns h,
      contains-append order (c ∷ []) n,
      eq_iff c n,
      eq_iff n c,
    )

-- each name has no pending edge when it is reached
unfoldable pub IsOrdered : Edges → List String → List String → Type 0
IsOrdered es seen [] = Unit
IsOrdered es seen (x ∷ xs) = (pending x seen es ≡ 0) × IsOrdered es (seen ++ x ∷ []) xs

IsOrdered-load :
    (es : Edges) (seen xs : List String) (c : String)
    → IsOrdered es seen xs
    → pending c (seen ++ xs) es ≡ 0
    → IsOrdered es seen (xs ++ c ∷ [])
unfolding IsOrdered
IsOrdered-load es seen [] c h p = (subst (λ l. pending c l es ≡ 0) (append-nil seen) p, tt)
IsOrdered-load es seen (x ∷ xs) c h p = (
  h.0,
  IsOrdered-load es (seen ++ x ∷ []) xs c (h.1)
      (subst (λ l. pending c l es ≡ 0) (sym (append_assoc seen (x ∷ []) xs)) p),
)

module _ (es : Edges) (ns : List String) where
  -- The state at the head of the loop: a plugin is queued or loaded, and once, exactly when nothing
  -- that it requires is still to be loaded.
  pub record IsLoading (s : Search) : Type 0 where
    pub degrees : (x : String) → degree x s.in_degree ≡ pending x s.load_order es
    pub places :
        (x : String)
        → count x s.queue + count x s.load_order
          ≡ (if contains ns x && degree x s.in_degree == 0 then 1 else 0)
    pub ordered : IsOrdered es [] s.load_order
    pub left : length (remaining s.load_order ns) + length s.load_order ≡ length ns

  unfoldable pub IsClosed : Type 0
  IsClosed = (c x : String) → 0 < count x (targets c es) → contains ns x ≡ true

  module _ (graph : Dict (List String)) (c : String) (rest : List String) (s : Search)
      (h : IsLoading s) (q : s.queue ≡ c ∷ rest) where
    -- the head of the queue is a plugin, is not loaded, and waits for nothing
    pub head_ready :
        (contains s.load_order c ≡ false) × (contains ns c ≡ true) × (pending c s.load_order es ≡ 0)
    unfolding count
    head_ready =
        ground
          (arith, h.places c, h.degrees c, ap (count c) q, count-contains c s.load_order, eq_refl c)

    split_pending :
        (x : String)
        → pending x s.load_order es ≡ pending x (s.load_order ++ c ∷ []) es + count x (targets c es)
    split_pending x = pending-load x c s.load_order es (head_ready.0)

    module _ (successors : dependents c graph ≡ targets c es) where
      abbrev opened : Search
      opened = record s { queue = rest; load_order = s.load_order ++ c ∷ [] }

      load-targets : load graph c rest s ≡ relax (targets c es) opened
      unfolding load
      load-targets = ap (λ ds. relax ds opened) successors

      opened_degree : (x : String) → count x (targets c es) ≤ degree x opened.in_degree
      opened_degree x = omega (arith, h.degrees x, split_pending x)

      degrees_after :
          (x : String)
          → degree x (relax (targets c es) opened).in_degree ≡ pending x (s.load_order ++ c ∷ []) es
      degrees_after x = omega (
        arith,
        relax-degree x (targets c es) opened (opened_degree x),
        h.degrees x,
        split_pending x,
      )

      places_after :
          IsClosed
          → (x : String)
          → count x (relax (targets c es) opened).queue + count x (s.load_order ++ c ∷ []) ≡ (
              if contains ns x && degree x (relax (targets c es) opened).in_degree == 0
              then 1
              else 0)
      unfolding IsClosed count
      places_after closed x = ground (
        arith,
        relax-queue x (targets c es) opened (opened_degree x),
        relax-degree x (targets c es) opened (opened_degree x),
        h.places x,
        closed c x,
        count-append x s.load_order (c ∷ []),
        ap (count x) q,
      )

      left_after :
          count c ns ≡ 1
          → length (remaining (s.load_order ++ c ∷ []) ns) + length (s.load_order ++ c ∷ [])
            ≡ length ns
      left_after one = omega (
        arith,
        length-remaining c s.load_order ns (head_ready.0),
        length-append s.load_order (c ∷ []),
        h.left,
      )

      IsLoading-relax : IsClosed → count c ns ≡ 1 → IsLoading (relax (targets c es) opened)
      IsLoading-relax closed one =
          let same = sym (relax-order (targets c es) opened) in
          record {
            degrees = λ x.
                subst (λ l. degree x (relax (targets c es) opened).in_degree ≡ pending x l es) same
                  (degrees_after x);
            places = λ x.
                subst
                  (λ l. count x (relax (targets c es) opened).queue + count x l ≡ (
                    if contains ns x && degree x (relax (targets c es) opened).in_degree == 0
                    then 1
                    else 0))
                  same (places_after closed x);
            ordered =
                subst (IsOrdered es []) same
                  (IsOrdered-load es [] s.load_order c h.ordered (head_ready.2));
            left =
                subst (λ l. length (remaining l ns) + length l ≡ length ns) same (left_after one);
          }

      pub load-IsLoading : IsClosed → count c ns ≡ 1 → IsLoading (load graph c rest s)
      load-IsLoading closed one = subst IsLoading (sym load-targets) (IsLoading-relax closed one)

      pub load-left :
          count c ns ≡ 1
          → length (remaining (load graph c rest s).load_order ns) + 1
            ≡ length (remaining s.load_order ns)
      load-left one = omega (
        arith,
        ap (λ (t : Search). length (remaining t.load_order ns)) load-targets,
        ap (λ l. length (remaining l ns)) (relax-order (targets c es) opened),
        length-remaining c s.load_order ns (head_ready.0),
      )
