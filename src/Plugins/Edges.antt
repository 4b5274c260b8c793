-- ===== src/Plugins/Edges.antt =====
-- The requirements among plugins as a list of edges, and that the resolver's dicts count them
-- (`resolve` of src/thumbelina/plugins/resolver.py, up to Kahn's algorithm).
use mathlib.Core.List.{append-nil}
use mathlib.Core.Path.{subst}
use thumbelina.Prelude.{
  ℕ, ◌+◌, String, Bool, false, not, ◌&&◌, ◌||◌, Option, none, some, List, [], ◌∷◌, ◌++◌, map, Dict,
  lookup, insert, lookup-insert, str_eq, eq_iff, contains, ◌≡◌, refl, sym, ◌∙◌, append_assoc, arith,
  if◌then◌else◌,
}
use thumbelina.Plugins.Metadata.{PluginDependency, PluginMetadata}
use thumbelina.Plugins.Resolver.{
  Graph, degree, dependents, add_edge, add_found, add_dependencies, add_plugins, build_graph,
}

-- from the dependency to the plugin that requires it
abbrev pub Edges : Type 0
Edges = List (String × String)

unfoldable pub count : String → List String → ℕ
count x [] = 0
count x (y ∷ ys) = (if str_eq y x then 1 else 0) + count x ys

-- the edges into `x` from what is not loaded
unfoldable pub pending : String → List String → Edges → ℕ
pending x loaded [] = 0
pending x loaded ((d, y) ∷ es) =
    (if str_eq y x && not (contains loaded d) then 1 else 0) + pending x loaded es

unfoldable pub targets : String → Edges → List String
targets d [] = []
targets d ((e, y) ∷ es) = if str_eq e d then y ∷ targets d es else targets d es

unfoldable pub found_edge : String → PluginDependency → Option PluginMetadata → Edges
found_edge name dep none = []
found_edge name dep (some found) = (dep.name, name) ∷ []

-- the requirements of one plugin that are among the plugins, and those of all
unfoldable pub dependency_edges : Dict PluginMetadata → String → List PluginDependency → Edges
unfolding found_edge
dependency_edges plugins name [] = []
dependency_edges plugins name (dep ∷ deps) =
    found_edge name dep (lookup dep.name plugins) ++ dependency_edges plugins name deps

unfoldable pub edges_of : Dict PluginMetadata → Dict PluginMetadata → Edges
unfolding dependency_edges
edges_of plugins [] = []
edges_of plugins ((name, meta) ∷ rest) =
    dependency_edges plugins name meta.dependencies ++ edges_of plugins rest

pub count-append : (x : String) (xs ys : List String) → count x (xs ++ ys) ≡ count x xs + count x ys
unfolding count
count-append x [] ys = omega arith
count-append x (y ∷ xs) ys = omega (arith, count-append x xs ys)

pub pending-append :
    (x : String) (loaded : List String) (es fs : Edges)
    → pending x loaded (es ++ fs) ≡ pending x loaded es + pending x loaded fs
unfolding pending
pending-append x loaded [] fs = omega arith
pending-append x loaded (e ∷ es) fs = omega (arith, pending-append x loaded es fs)

pub targets-append :
    (d : String) (es fs : Edges) → targets d (es ++ fs) ≡ targets d es ++ targets d fs
unfolding targets
targets-append d [] fs = refl
targets-append d ((e, y) ∷ es) fs = ground (arith, targets-append d es fs)

pub contains-append :
    (xs ys : List String) (x : String) → contains (xs ++ ys) x ≡ (contains xs x || contains ys x)
contains-append [] ys x = refl
contains-append (y ∷ xs) ys x = ground (arith, contains-append xs ys x)

-- Loading `c` removes its edges from those that are pending.
pub pending-load :
    (x c : String) (loaded : List String) (es : Edges)
    → contains loaded c ≡ false
    → pending x loaded es ≡ pending x (loaded ++ c ∷ []) es + count x (targets c es)
unfolding pending targets count
pending-load x c loaded [] h = omega arith
pending-load x c loaded ((d, y) ∷ es) h =
    ground (
      arith,
      pending-load x c loaded es h,
      contains-append loaded (c ∷ []) d,
      eq_iff d c,
      eq_iff c d,
    )

-- The dicts count the edges.
pub record IsBuilt (es : Edges) (g : Graph) : Type 0 where
  pub degrees : (x : String) → degree x g.in_degree ≡ pending x [] es
  pub successors : (d : String) → dependents d g.graph ≡ targets d es

pub degree-insert :
    (x name : String) (n : ℕ) (d : Dict ℕ)
    → degree x (insert name n d) ≡ (if str_eq name x then n else degree x d)
unfolding degree
degree-insert x name n d = ground (arith, lookup-insert name x n d)

dependents-insert :
    (x name : String) (ns : List String) (d : Dict (List String))
    → dependents x (insert name ns d) ≡ (if str_eq name x then ns else dependents x d)
unfolding dependents
dependents-insert x name ns d = ground (arith, lookup-insert name x ns d)

degree-zero :
    (x : String) (plugins : Dict PluginMetadata) → degree x (map (λ e. (e.0, 0)) plugins) ≡ 0
unfolding degree lookup
degree-zero x [] = refl
degree-zero x ((n, p) ∷ plugins) = ground (arith, degree-zero x plugins)

dependents-none :
    (x : String) (plugins : Dict PluginMetadata) → dependents x (map (λ e. (e.0, [])) plugins) ≡ []
unfolding dependents lookup
dependents-none x [] = refl
dependents-none x ((n, p) ∷ plugins) = ground (arith, dependents-none x plugins)

module _ (satisfies : String → String → Bool) where
  add_edge-IsBuilt :
      (name : String) (dep : PluginDependency) (found : PluginMetadata) (es : Edges) (g : Graph)
      → IsBuilt es g
      → IsBuilt (es ++ (dep.name, name) ∷ []) (add_edge satisfies name dep found g)
  unfolding add_edge pending targets
  add_edge-IsBuilt name dep found es g h = record {
    degrees = λ x.
        degree-insert x name (degree name g.in_degree + 1) g.in_degree
        ∙ ground (
          arith,
          h.degrees x,
          h.degrees name,
          pending-append x [] es ((dep.name, name) ∷ []),
          eq_iff name x,
        );
    successors = λ d.
        dependents-insert d dep.name (dependents dep.name g.graph ++ name ∷ []) g.graph
        ∙ ground (
          arith,
          h.successors d,
          h.successors dep.name,
          targets-append d es ((dep.name, name) ∷ []),
          eq_iff dep.name d,
          append-nil (targets d es),
        );
  }

  add_found-IsBuilt :
      (name : String) (dep : PluginDependency) (o : Option PluginMetadata) (es : Edges) (g : Graph)
      → IsBuilt es g
      → IsBuilt (es ++ found_edge name dep o) (add_found satisfies name dep o g)
  unfolding add_found found_edge
  add_found-IsBuilt name dep none es g h = subst (λ fs. IsBuilt fs g) (sym (append-nil es)) h
  add_found-IsBuilt name dep (some found) es g h = add_edge-IsBuilt name dep found es g h

  add_dependencies-IsBuilt :
      (plugins : Dict PluginMetadata) (name : String) (deps : List PluginDependency) (es : Edges)
      (g : Graph)
      → IsBuilt es g
      → IsBuilt
          (es ++ dependency_edges plugins name deps)
          (add_dependencies satisfies plugins name deps g)
  unfolding add_dependencies dependency_edges
  add_dependencies-IsBuilt plugins name [] es g h =
      subst (λ fs. IsBuilt fs g) (sym (append-nil es)) h
  add_dependencies-IsBuilt plugins name (dep ∷ deps) es g h =
      let fs = found_edge name dep (lookup dep.name plugins) in
      let g' = add_found satisfies name dep (lookup dep.name plugins) g in
      subst (λ gs. IsBuilt gs (add_dependencies satisfies plugins name deps g'))
        (append_assoc es fs (dependency_edges plugins name deps))
        (add_dependencies-IsBuilt plugins name deps (es ++ fs) g'
          (add_found-IsBuilt name dep (lookup dep.name plugins) es g h))

  add_plugins-IsBuilt :
      (plugins ps : Dict PluginMetadata) (es : Edges) (g : Graph)
      → IsBuilt es g
      → IsBuilt (es ++ edges_of plugins ps) (add_plugins satisfies plugins ps g)
  unfolding add_plugins edges_of
  add_plugins-IsBuilt plugins [] es g h = subst (λ fs. IsBuilt fs g) (sym (append-nil es)) h
  add_plugins-IsBuilt plugins ((name, meta) ∷ rest) es g h =
      let fs = dependency_edges plugins name meta.dependencies in
      let g' = add_dependencies satisfies plugins name meta.dependencies g in
      subst (λ gs. IsBuilt gs (add_plugins satisfies plugins rest g'))
        (append_assoc es fs (edges_of plugins rest))
        (add_plugins-IsBuilt plugins rest (es ++ fs) g'
          (add_dependencies-IsBuilt plugins name meta.dependencies es g h))

  pub build_graph-IsBuilt :
      (plugins : Dict PluginMetadata)
      → IsBuilt (edges_of plugins plugins) (build_graph satisfies plugins)
  unfolding build_graph pending targets
  build_graph-IsBuilt plugins =
      add_plugins-IsBuilt plugins plugins [] _ (record {
        degrees = λ x. degree-zero x plugins;
        successors = λ d. dependents-none d plugins;
      })
