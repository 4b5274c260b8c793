-- ===== src/Plugins/Resolved.antt =====
-- What a load order is good for: requirements first, and only cycles left out (`resolve` of
-- src/thumbelina/plugins/resolver.py).
use mathlib.Core.List.{append-nil}
use mathlib.Core.Path.{subst}
use thumbelina.Prelude.{
  ℕ, suc, zero, ◌≤◌, ◌<◌, String, Bool, true, false, not, ◌&&◌, some, List, [], ◌∷◌, ◌++◌, Dict,
  length, str_eq, eq_iff, eq_refl, contains, ◌≡◌, refl, sym, ap, ◌∙◌, arith, append_assoc, inl, inr,
  Bool-cases,
}
use thumbelina.Plugins.Metadata.{PluginMetadata}
use thumbelina.Plugins.Resolver.{Problem, circular, names, remaining, build_graph, resolve}
use thumbelina.Plugins.Edges.{Edges, count, pending, targets, edges_of}
use thumbelina.Plugins.Kahn.{IsOrdered, count-contains}
use thumbelina.Plugins.Requirements.{requires, edge, edge-requires}
use thumbelina.Plugins.LoadOrder.{IsDistinct, IsResolved-of, contains-names, resolve-IsResolved}

ordered_at :
    (es : Edges) (seen pre post : List String) (x : String)
    → IsOrdered es seen (pre ++ x ∷ post)
    → pending x (seen ++ pre) es ≡ 0
unfolding IsOrdered
ordered_at es seen [] post x h = subst (λ l. pending x l es ≡ 0) (sym (append-nil seen)) (h.0)
ordered_at es seen (y ∷ pre) post x h =
    subst (λ l. pending x l es ≡ 0) (append_assoc seen (y ∷ []) pre)
      (ordered_at es (seen ++ y ∷ []) pre post x (h.1))

-- nothing is pending: each edge comes from what is loaded
none_pending :
    (x d : String) (loaded : List String) (es : Edges)
    → pending x loaded es ≡ 0
    → edge es x d ≡ true
    → contains loaded d ≡ true
unfolding pending edge targets count
none_pending x d loaded [] p h = cc
none_pending x d loaded ((e, y) ∷ es) p h = ground (arith, none_pending x d loaded es, eq_iff e d)

some_pending :
    (x : String) (loaded : List String) (es : Edges)
    → 0 < pending x loaded es
    → (d : String) × (edge es x d ≡ true) × (contains loaded d ≡ false)
unfolding pending edge targets count
some_pending x loaded [] p = absurd (omega (arith, p))
some_pending x loaded ((e, y) ∷ es) p = elim (Bool-cases (str_eq y x && not (contains loaded e))) [
  | inl k ↦ (e, ground (arith, k, eq_refl e), ground (arith, k))
  | inr k ↦
      let (d, h, n) = some_pending x loaded es (ground (arith, k, p)) in (d, ground (arith, h), n)
]

contains-remaining :
    (x : String) (order ns : List String)
    → contains (remaining order ns) x ≡ (contains ns x && not (contains order x))
unfolding remaining
contains-remaining x order [] = refl
contains-remaining x order (n ∷ ns) = ground (arith, contains-remaining x order ns, eq_iff n x)

true-false : {b : Bool} → b ≡ true → b ≡ false → ⊥
true-false h k = cc

requires_known :
    (plugins : Dict PluginMetadata) (x d : String)
    → requires plugins x d ≡ true
    → contains (names plugins) d ≡ true
unfolding requires
requires_known plugins x d r = contains-names d plugins ∙ ground (arith, r)

length-contains : (x : String) (xs : List String) → contains xs x ≡ true → 0 < length xs
length-contains x [] h = cc
length-contains x (y ∷ xs) h = omega arith

module _ (satisfies : String → String → Bool) (plugins : Dict PluginMetadata)
    (distinct : IsDistinct (names plugins)) where
  -- For plugins under distinct names the resolver returns, and its order has each plugin at most once
  -- and nothing else.
  pub resolve_returns :
      (order : List String) × (problems : List Problem) × (resolve satisfies plugins
        ≡ some (order, problems))
      × ((x : String) → count x order ≤ count x (names plugins))
  resolve_returns =
      let (o, p, e, h) = resolve-IsResolved plugins distinct satisfies in
      (o, p, e, λ x. ground (arith, h.places x, count-contains x (names plugins)))

  module _ (order : List String) (problems : List Problem)
      (returned : resolve satisfies plugins ≡ some (order, problems)) where
    -- For plugins under distinct names: wherever a plugin stands in the order that the resolver returns,
    -- each dependency that it declares and that is among the plugins stands before it, required or
    -- optional.
    pub resolve_order :
        (pre post : List String) (x d : String)
        → order ≡ pre ++ x ∷ post
        → requires plugins x d ≡ true
        → contains pre d ≡ true
    unfolding IsDistinct
    resolve_order pre post x d e r =
        let h = IsResolved-of plugins distinct satisfies order problems returned in
        none_pending x d pre (edges_of plugins plugins)
          (ordered_at (edges_of plugins plugins) [] pre post x
            (subst (λ l. IsOrdered (edges_of plugins plugins) [] l) e h.ordered))
          (edge-requires plugins x d (distinct x) ∙ r)

    left_behind :
        (x : String)
        → contains (names plugins) x ≡ true
        → contains order x ≡ false
        → (d : String) × (requires plugins x d ≡ true) × (contains order d ≡ false)
    unfolding IsDistinct
    left_behind x k n =
        let h = IsResolved-of plugins distinct satisfies order problems returned in
        let (d, e, m) =
          some_pending x order (edges_of plugins plugins)
            (ground (arith, h.places x, count-contains x order, k, n)) in
        (d, sym (edge-requires plugins x d (distinct x)) ∙ e, m)

    -- For plugins under distinct names: a plugin that the order leaves out has a dependency that it leaves out too, and is named by the
    -- circular dependency that the problems end with.
    pub left_out :
        (x : String)
        → contains (names plugins) x ≡ true
        → contains order x ≡ false
        → ((d : String) × (requires plugins x d ≡ true) × (contains order d ≡ false))
          × ((before : List Problem) × (problems
                ≡ before ++ circular (remaining order (names plugins)) ∷ []))
          × (contains (remaining order (names plugins)) x ≡ true)
    left_out x k n =
        let h = IsResolved-of plugins distinct satisfies order problems returned in
        let named : contains (remaining order (names plugins)) x ≡ true =
          contains-remaining x order (names plugins) ∙ ground (arith, k, n) in
        let some_left = length-contains x (remaining order (names plugins)) named in
        (
          left_behind x k n,
          (
            (build_graph satisfies plugins).errors,
            h.reported
                ∙ ap (λ ps. (build_graph satisfies plugins).errors ++ ps)
                    (ground (arith, h.sizes, some_left)),
          ),
          named,
        )

    loaded_below :
        (rank : String → ℕ)
        → ((x d : String) → requires plugins x d ≡ true → rank d < rank x)
        → (n : ℕ) (x : String) → rank x < n
        → contains (names plugins) x ≡ true
        → contains order x ≡ true
    loaded_below rank falls zero x b k = absurd (omega (arith, b))
    loaded_below rank falls (suc n) x b k = elim (Bool-cases (contains order x)) [
      | inl e ↦ e
      | inr e ↦
          let (d, r, m) = left_behind x k e in
          absurd (
            true-false
              (loaded_below rank falls n d (omega (arith, falls x d r))
                (requires_known plugins x d r))
              m)
    ]

    -- For plugins under distinct names: where each dependency has a lower rank than the plugin that requires it, so that there is no
    -- cycle, every plugin is in the order.
    pub acyclic_loads :
        (rank : String → ℕ) (x : String)
        → ((x d : String) → requires plugins x d ≡ true → rank d < rank x)
        → contains (names plugins) x ≡ true
        → contains order x ≡ true
    acyclic_loads rank x falls k = loaded_below rank falls (suc (rank x)) x (omega arith) k
