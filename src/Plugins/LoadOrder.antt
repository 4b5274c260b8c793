-- ===== src/Plugins/LoadOrder.antt =====
-- The load order that the resolver returns (`resolve` of src/thumbelina/plugins/resolver.py).
use mathlib.Core.Option.{some_inj}
use mathlib.Core.Path.{subst}
use thumbelina.Prelude.{
  ℕ, suc, zero, ◌+◌, ◌≤◌, String, Bool, true, ◌&&◌, some, List, [], ◌∷◌, ◌++◌, Dict, length, lookup,
  str_eq, eq_iff, eq_refl, contains, is_some, ◌≡◌, refl, sym, ap, ◌∙◌, arith, if◌then◌else◌, ◌==◌,
  inl, inr, Bool-cases,
}
use thumbelina.Plugins.Metadata.{PluginMetadata}
use thumbelina.Plugins.Resolver.{
  Problem, Graph, Search, names, degree, dependents, ready, load, kahn, remaining, started_search,
  build_graph, cycle_problem, resolve,
}
use thumbelina.Plugins.Edges.{
  Edges, count, pending, targets, edges_of, build_graph-IsBuilt, IsBuilt,
}
use thumbelina.Plugins.Kahn.{
  IsOrdered, IsLoading, IsClosed, head_ready, load-IsLoading, load-left, count-contains,
}
use thumbelina.Plugins.Requirements.{requires, declared_in, edge, edge-requires}

unfoldable pub IsDistinct : List String → Type 0
IsDistinct ns = (x : String) → count x ns ≤ 1

pub contains-names :
    (x : String) (plugins : Dict PluginMetadata)
    → contains (names plugins) x ≡ is_some (lookup x plugins)
unfolding lookup
contains-names x [] = refl
contains-names x ((n, p) ∷ plugins) = ground (arith, contains-names x plugins)

count-ready :
    (x : String) (d : Dict ℕ) (ns : List String)
    → count x (ready d ns) ≡ (if degree x d == 0 then count x ns else 0)
unfolding count ready
count-ready x d [] = ground arith
count-ready x d (n ∷ ns) = elim (Bool-cases (str_eq n x)) [
  | inl e ↦
      subst (λ y. count y (ready d (n ∷ ns)) ≡ (if degree y d == 0 then count y (n ∷ ns) else 0))
        ((eq_iff n x).0 e) (ground (arith, count-ready n d ns, eq_refl n))
  | inr e ↦ rw e (ground (arith, count-ready x d ns))
]

length-names : (plugins : Dict PluginMetadata) → length (names plugins) ≡ length plugins
length-names [] = refl
length-names (p ∷ plugins) = ap suc (length-names plugins)

length-remaining-nil : (ns : List String) → length (remaining [] ns) ≡ length ns
unfolding remaining
length-remaining-nil [] = refl
length-remaining-nil (n ∷ ns) = ap suc (length-remaining-nil ns)

module _ (plugins : Dict PluginMetadata) (distinct : IsDistinct (names plugins)) where
  abbrev es : Edges
  es = edges_of plugins plugins

  closed : IsClosed es (names plugins)
  unfolding IsClosed edge requires declared_in IsDistinct
  closed c x h = ground (arith, edge-requires plugins x c (distinct x), contains-names x plugins)

  one_of : (c : String) → contains (names plugins) c ≡ true → count c (names plugins) ≡ 1
  unfolding IsDistinct
  one_of c h = ground (arith, distinct c, count-contains c (names plugins))

  start-IsLoading :
      (g : Graph) → IsBuilt es g → IsLoading es (names plugins) (started_search g plugins)
  unfolding IsOrdered IsDistinct count
  start-IsLoading g b = record {
    degrees = b.degrees;
    places = λ x. ground (
      arith,
      count-ready x g.in_degree (names plugins),
      count-contains x (names plugins),
      distinct x,
    );
    ordered = tt;
    left = omega (arith, length-remaining-nil (names plugins));
  }

  -- with as much fuel as there are plugins to load, the loop ends with an empty queue
  kahn_ends :
      (graph : Dict (List String)) (fuel : ℕ) (q : List String) (s : Search)
      → ((d : String) → dependents d graph ≡ targets d es)
      → IsLoading es (names plugins) s
      → s.queue ≡ q
      → length (remaining s.load_order (names plugins)) ≤ fuel
      → (t : Search) × (kahn graph fuel q s ≡ some t)
        × IsLoading es (names plugins) t
        × (t.queue ≡ [])
  unfolding kahn
  kahn_ends graph fuel [] s b h e l = (s, refl, h, e)
  kahn_ends graph zero (c ∷ rest) s b h e l =
      let ready = head_ready es (names plugins) graph c rest s h e in
      let one = one_of c (ready.1) in
      absurd (omega (arith, load-left es (names plugins) graph c rest s h e (b c) one))
  kahn_ends graph (suc fuel) (c ∷ rest) s b h e l =
      let ready = head_ready es (names plugins) graph c rest s h e in
      let one = one_of c (ready.1) in
      let s' = load graph c rest s in
      kahn_ends graph fuel s'.queue s' b
        (load-IsLoading es (names plugins) graph c rest s h e (b c) closed one) refl
        (omega (arith, load-left es (names plugins) graph c rest s h e (b c) one))

  -- what the search is when the loop has ended, and what `resolve` returns of it
  resolved :
      (satisfies : String → String → Bool)
      → (t : Search) × (resolve satisfies plugins
          ≡ some (
            t.load_order,
            (build_graph satisfies plugins).errors ++ cycle_problem plugins t.load_order,
          ))
        × IsLoading es (names plugins) t
        × (t.queue ≡ [])
  unfolding resolve
  resolved satisfies =
      let g = build_graph satisfies plugins in
      let b = build_graph-IsBuilt satisfies plugins in
      let s = started_search g plugins in
      let (t, e, h, q) =
        kahn_ends g.graph (length plugins) s.queue s b.successors (start-IsLoading g b) refl
          (omega (arith, length-remaining-nil (names plugins), length-names plugins)) in
      (t, rw (e, resolve) refl, h, q)

  pub record IsResolved (satisfies : String → String → Bool) (order : List String)
      (problems : List Problem) : Type 0 where
    pub ordered : IsOrdered es [] order
    pub places :
        (x : String)
        → count x order ≡ (if contains (names plugins) x && pending x order es == 0 then 1 else 0)
    pub sizes : length (remaining order (names plugins)) + length order ≡ length plugins
    pub reported : problems ≡ (build_graph satisfies plugins).errors ++ cycle_problem plugins order

  pub resolve-IsResolved :
      (satisfies : String → String → Bool)
      → (order : List String) × (problems : List Problem) × (resolve satisfies plugins
          ≡ some (order, problems))
        × IsResolved satisfies order problems
  unfolding count
  resolve-IsResolved satisfies =
      let (t, e, h, q) = resolved satisfies in
      (
        t.load_order,
        (build_graph satisfies plugins).errors ++ cycle_problem plugins t.load_order,
        e,
        record {
          ordered = h.ordered;
          places = λ x. ground (arith, h.places x, h.degrees x, ap (count x) q);
          sizes = omega (arith, h.left, length-names plugins);
          reported = refl;
        },
      )

  pub IsResolved-of :
      (satisfies : String → String → Bool) (order : List String) (problems : List Problem)
      → resolve satisfies plugins ≡ some (order, problems)
      → IsResolved satisfies order problems
  IsResolved-of satisfies order problems e =
      let (o, p, f, h) = resolve-IsResolved satisfies in
      subst (λ (r : List String × List Problem). IsResolved satisfies (r.0) (r.1))
        (some_inj.0 (sym f ∙ e)) h
