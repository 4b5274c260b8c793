-- ===== src/Plugins/Resolver.antt =====
-- The load order of plugins (`DependencyResolver` of src/thumbelina/plugins/resolver.py). The dict of
-- plugins is an association list in its order. `satisfies` stands for `satisfies_version`.
use Prim.Native.Nat.{Ordering}
use Prim.Native.String.{compare}
use thumbelina.Prelude.{
  ℕ, suc, zero, ◌+◌, ◌-◌, String, Bool, false, not, ◌&&◌, ◌||◌, Option, none, some, List, [], ◌∷◌,
  ◌++◌, map, Dict, lookup, insert, str_eq, contains, is_some, length, ltb, ◌==◌, keep,
  if◌then◌else◌,
}
use thumbelina.Plugins.Metadata.{PluginDependency, PluginMetadata}

-- The messages of `errors`, by their parts; the names of a cycle stand in the order of the plugins,
-- and the message sorts them.
pub data Problem : Type 0 where
  conflict : String → String → Problem
  missing_optional missing : String → String → Problem
  wrong_version : String → String → String → String → Problem
  circular : List String → Problem

abbrev pub names : Dict PluginMetadata → List String
names plugins = map (λ e. e.0) plugins

-- `tuple(sorted([a, b]))`
abbrev pub sorted_pair : String → String → String × String
sorted_pair a b = elim (compare b a) [ Ordering.lt ↦ (b, a) | _ ↦ (a, b) ]

abbrev pub has_pair : List (String × String) → String × String → Bool
has_pair [] p = false
has_pair (q ∷ qs) p = (str_eq q.0 p.0 && str_eq q.1 p.1) || has_pair qs p

-- `seen` and `errors` of `check_conflicts`
abbrev pub Conflicts : Type 0
Conflicts = List (String × String) × List Problem

abbrev note_conflict : String → String → Conflicts → Conflicts
note_conflict name other (seen, errors) =
    if has_pair seen (sorted_pair name other)
    then (seen, errors)
    else (seen ++ sorted_pair name other ∷ [], errors ++ conflict name other ∷ [])

unfoldable pub conflicts_of : Dict PluginMetadata → String → List String → Conflicts → Conflicts
conflicts_of plugins name [] s = s
conflicts_of plugins name (other ∷ others) s =
    conflicts_of plugins name others
      (if is_some (lookup other plugins) then note_conflict name other s else s)

unfoldable pub conflicts_from : Dict PluginMetadata → Dict PluginMetadata → Conflicts → Conflicts
unfolding conflicts_of
conflicts_from plugins [] s = s
conflicts_from plugins ((name, meta) ∷ rest) s =
    conflicts_from plugins rest (conflicts_of plugins name meta.conflicts s)

unfoldable pub check_conflicts : Dict PluginMetadata → List Problem
unfolding conflicts_from
check_conflicts plugins = (conflicts_from plugins plugins ([], [])).1

unfoldable pub missing_of : Dict PluginMetadata → String → List PluginDependency → List Problem
missing_of plugins name [] = []
missing_of plugins name (dep ∷ deps) =
    let rest = missing_of plugins name deps in
    if contains (names plugins) dep.name
    then rest
    else if dep.optional
    then missing_optional name dep.name ∷ rest
    else missing name dep.name ∷ rest

unfoldable pub missing_from : Dict PluginMetadata → Dict PluginMetadata → List Problem
unfolding missing_of
missing_from plugins [] = []
missing_from plugins ((name, meta) ∷ rest) =
    missing_of plugins name meta.dependencies ++ missing_from plugins rest

unfoldable pub check_missing_dependencies : Dict PluginMetadata → List Problem
unfolding missing_from
check_missing_dependencies plugins = missing_from plugins plugins

-- `in_degree`, `graph` and `errors`
pub record Graph : Type 0 where
  pub in_degree : Dict ℕ
  pub graph : Dict (List String)
  pub errors : List Problem

-- `in_degree[name]` and `graph[name]`, for names that are there
unfoldable pub degree : String → Dict ℕ → ℕ
degree name d = elim (lookup name d) [ none ↦ 0 | some n ↦ n ]

unfoldable pub dependents : String → Dict (List String) → List String
dependents name d = elim (lookup name d) [ none ↦ [] | some ns ↦ ns ]

module _ (satisfies : String → String → Bool) where
  abbrev pub version_problem : String → PluginDependency → PluginMetadata → List Problem
  version_problem name dep found =
      if not (str_eq dep.version_constraint "")
        && not (satisfies found.version dep.version_constraint)
      then wrong_version name dep.name dep.version_constraint found.version ∷ []
      else []

  -- The test `not dep.optional or dep.name in plugins` is true where it stands.
  unfoldable pub add_edge : String → PluginDependency → PluginMetadata → Graph → Graph
  add_edge name dep found g = record {
    in_degree = insert name (degree name g.in_degree + 1) g.in_degree;
    graph = insert dep.name (dependents dep.name g.graph ++ name ∷ []) g.graph;
    errors = g.errors ++ version_problem name dep found;
  }

  unfoldable pub add_found : String → PluginDependency → Option PluginMetadata → Graph → Graph
  add_found name dep none g = g
  add_found name dep (some found) g = add_edge name dep found g

  unfoldable pub add_dependencies :
      Dict PluginMetadata → String → List PluginDependency → Graph → Graph
  add_dependencies plugins name [] g = g
  add_dependencies plugins name (dep ∷ deps) g =
      add_dependencies plugins name deps (add_found name dep (lookup dep.name plugins) g)

  unfoldable pub add_plugins : Dict PluginMetadata → Dict PluginMetadata → Graph → Graph
  add_plugins plugins [] g = g
  add_plugins plugins ((name, meta) ∷ rest) g =
      add_plugins plugins rest (add_dependencies plugins name meta.dependencies g)

  unfoldable pub build_graph : Dict PluginMetadata → Graph
  build_graph plugins = add_plugins plugins plugins (record {
    in_degree = map (λ e. (e.0, 0)) plugins;
    graph = map (λ e. (e.0, [])) plugins;
    errors = check_conflicts plugins ++ check_missing_dependencies plugins;
  })

-- `in_degree`, `queue` and `load_order`
pub record Search : Type 0 where
  pub in_degree : Dict ℕ
  pub queue : List String
  pub load_order : List String

unfoldable pub relax_one : String → Search → Search
relax_one dependent s =
    let n = degree dependent s.in_degree - 1 in
    record s {
      in_degree = insert dependent n s.in_degree;
      queue = if n == 0 then s.queue ++ dependent ∷ [] else s.queue;
    }

unfoldable pub relax : List String → Search → Search
relax [] s = s
relax (d ∷ ds) s = relax ds (relax_one d s)

-- one round of the `while` loop, with `rest` behind the head of the queue
unfoldable pub load : Dict (List String) → String → List String → Search → Search
load graph current rest s =
    relax (dependents current graph)
      (record s { queue = rest; load_order = s.load_order ++ current ∷ [] })

-- The `while` loop, on fuel; `none` is for want of fuel.
unfoldable pub kahn : Dict (List String) → ℕ → List String → Search → Option Search
kahn graph fuel [] s = some s
kahn graph zero (current ∷ rest) s = none
kahn graph (suc fuel) (current ∷ rest) s =
    let s' = load graph current rest s in kahn graph fuel s'.queue s'

unfoldable pub ready : Dict ℕ → List String → List String
ready d ns = keep (λ n. degree n d == 0) ns

abbrev pub started_search : Graph → Dict PluginMetadata → Search
started_search g plugins = record {
  in_degree = g.in_degree;
  queue = ready g.in_degree (names plugins);
  load_order = [];
}

-- the names that are not in the order
unfoldable pub remaining : List String → List String → List String
remaining order ns = keep (λ n. not (contains order n)) ns

abbrev pub cycle_problem : Dict PluginMetadata → List String → List Problem
cycle_problem plugins order =
    if ltb (length order) (length plugins)
    then circular (remaining order (names plugins)) ∷ []
    else []

-- `(load_order, errors)`
unfoldable pub resolve :
    (String → String → Bool) → Dict PluginMetadata → Option (List String × List Problem)
resolve satisfies plugins =
    let g = build_graph satisfies plugins in
    let s = started_search g plugins in
    elim (kahn g.graph (length plugins) s.queue s) [
      | none ↦ none
      | some t ↦ some (t.load_order, g.errors ++ cycle_problem plugins t.load_order)
    ]
