-- ===== src/Plugins/Requirements.antt =====
-- The edges of the resolver are the declared requirements (src/thumbelina/plugins/resolver.py).
use thumbelina.Prelude.{
  ◌≤◌, String, Bool, false, ◌&&◌, ◌||◌, Option, none, some, List, [], ◌∷◌, ◌++◌, Dict, lookup,
  str_eq, eq_iff, contains, is_some, ◌≡◌, ap, ◌∙◌, arith, ltb, inl, inr, Bool-cases,
}
use thumbelina.Plugins.Metadata.{PluginDependency, PluginMetadata}
use thumbelina.Plugins.Resolver.{names}
use thumbelina.Plugins.Edges.{
  Edges, count, targets, found_edge, dependency_edges, edges_of, count-append, targets-append,
}
use thumbelina.Plugins.Kahn.{count-contains}

pub declares : List PluginDependency → String → Bool
declares [] d = false
declares (dep ∷ deps) d = str_eq dep.name d || declares deps d

unfoldable pub declared_in : Option PluginMetadata → String → Bool
unfolding declares
declared_in none d = false
declared_in (some meta) d = declares meta.dependencies d

-- the plugin `x` declares the dependency `d`, which is among the plugins
unfoldable pub requires : Dict PluginMetadata → String → String → Bool
unfolding declared_in
requires plugins x d = declared_in (lookup x plugins) d && is_some (lookup d plugins)

unfoldable pub edge : Edges → String → String → Bool
edge es x d = ltb 0 (count x (targets d es))

edge-append : (es fs : Edges) (x d : String) → edge (es ++ fs) x d ≡ (edge es x d || edge fs x d)
unfolding edge
edge-append es fs x d =
    ground
      (arith, ap (count x) (targets-append d es fs), count-append x (targets d es) (targets d fs))

module _ (plugins : Dict PluginMetadata) where
  edge-found_edge :
      (name : String) (dep : PluginDependency) (o : Option PluginMetadata) (x d : String)
      → edge (found_edge name dep o) x d ≡ (str_eq name x && str_eq dep.name d && is_some o)
  unfolding edge found_edge targets count
  edge-found_edge name dep none x d = ground arith
  edge-found_edge name dep (some found) x d = ground arith

  edge-lookup :
      (name : String) (dep : PluginDependency) (x d : String)
      → edge (found_edge name dep (lookup dep.name plugins)) x d
        ≡ (str_eq name x && str_eq dep.name d && is_some (lookup d plugins))
  edge-lookup name dep x d =
      edge-found_edge name dep (lookup dep.name plugins) x d
      ∙ elim (Bool-cases (str_eq dep.name d)) [
        | inl e ↦
            ap (λ n. str_eq name x && str_eq dep.name d && is_some (lookup n plugins))
              ((eq_iff dep.name d).0 e)
        | inr e ↦ rw e (ground arith)
      ]

  edge-dependency_edges :
      (name : String) (deps : List PluginDependency) (x d : String)
      → edge (dependency_edges plugins name deps) x d
        ≡ (str_eq name x && declares deps d && is_some (lookup d plugins))
  unfolding dependency_edges declares edge targets count
  edge-dependency_edges name [] x d = ground arith
  edge-dependency_edges name (dep ∷ deps) x d =
      edge-append (found_edge name dep (lookup dep.name plugins))
        (dependency_edges plugins name deps) x d
      ∙ regroup (edge-lookup name dep x d) (edge-dependency_edges name deps x d)
    where
      regroup :
          {a b : Bool}
          → a ≡ (str_eq name x && str_eq dep.name d && is_some (lookup d plugins))
          → b ≡ (str_eq name x && declares deps d && is_some (lookup d plugins))
          → (a || b) ≡ (
              str_eq name x && (str_eq dep.name d || declares deps d) && is_some (lookup d plugins))
      regroup e f = rw (e, f) (ground arith)

  edge-absent :
      (ps : Dict PluginMetadata) (x d : String)
      → contains (names ps) x ≡ false
      → edge (edges_of plugins ps) x d ≡ false
  unfolding edges_of edge targets count
  edge-absent [] x d h = ground arith
  edge-absent ((name, meta) ∷ ps) x d h =
      edge-append (dependency_edges plugins name meta.dependencies) (edges_of plugins ps) x d
      ∙ rw (edge-dependency_edges name meta.dependencies x d) (ground (arith, edge-absent ps x d))

  edge-edges_of :
      (ps : Dict PluginMetadata) (x d : String)
      → count x (names ps) ≤ 1
      → edge (edges_of plugins ps) x d ≡ (declared_in (lookup x ps) d && is_some (lookup d plugins))
  unfolding edges_of edge targets count lookup declared_in
  edge-edges_of [] x d h = ground arith
  edge-edges_of ((name, meta) ∷ ps) x d h =
      edge-append (dependency_edges plugins name meta.dependencies) (edges_of plugins ps) x d
      ∙ rw (edge-dependency_edges name meta.dependencies x d)
          (ground (arith, edge-absent ps x d, edge-edges_of ps x d, count-contains x (names ps)))

-- Where the plugins have different names, there is an edge exactly for each requirement.
pub edge-requires :
    (plugins : Dict PluginMetadata) (x d : String)
    → count x (names plugins) ≤ 1
    → edge (edges_of plugins plugins) x d ≡ requires plugins x d
unfolding requires
edge-requires plugins x d h = edge-edges_of plugins plugins x d h
