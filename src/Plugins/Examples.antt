-- ===== src/Plugins/Examples.antt =====
-- Three plugins in order, and two that require each other (src/thumbelina/plugins/resolver.py).
use mathlib.Core.Path.{subst}
use thumbelina.Prelude.{
  ℕ, ◌≤◌, ◌<◌, String, Bool, true, false, some, List, [], ◌∷◌, ◌++◌, Dict, lookup, insert, contains,
  false, ◌&&◌, Bool-cases, inl, inr, ◌∙◌, ◌≡◌, refl, arith, str_eq, eq_iff, if◌then◌else◌,
}
use thumbelina.Plugins.Metadata.{PluginDependency, PluginMetadata}
use thumbelina.Plugins.Resolver.{
  Problem, circular, names, resolve, build_graph, add_plugins, add_dependencies, add_found,
  add_edge, degree, dependents, kahn, ready, load, relax, relax_one, check_conflicts,
  conflicts_from, conflicts_of, check_missing_dependencies, missing_from, missing_of, remaining,
}
use thumbelina.Plugins.Edges.{count}
use thumbelina.Plugins.Requirements.{requires, declared_in}
use thumbelina.Plugins.LoadOrder.{IsDistinct}
use thumbelina.Plugins.Resolved.{resolve_returns, resolve_order, left_out, acyclic_loads}

abbrev any_version : String → String → Bool
any_version v c = true

abbrev plugin : String → List PluginDependency → PluginMetadata
plugin name deps = record {
  name = name;
  version = "1.0.0";
  description = "";
  author = "";
  dependencies = deps;
  conflicts = [];
}

abbrev requirement : String → PluginDependency
requirement name = record { name = name; version_constraint = ""; optional = false }

-- `news` needs `feed`, and `feed` needs nothing
abbrev two_plugins : Dict PluginMetadata
two_plugins = ("news", plugin "news" (requirement "feed" ∷ [])) ∷ ("feed", plugin "feed" []) ∷ []

-- `east` and `west` need each other
abbrev cyclic_plugins : Dict PluginMetadata
cyclic_plugins =
    ("east", plugin "east" (requirement "west" ∷ []))
    ∷ ("west", plugin "west" (requirement "east" ∷ []))
    ∷ []

str_eq_comm : (a b : String) → str_eq a b ≡ str_eq b a
str_eq_comm a b = ground (arith, eq_iff a b, eq_iff b a)

-- a text equals at most one of two different texts
apart : (a b x : String) → str_eq a b ≡ false → (str_eq a x && str_eq b x) ≡ false
apart a b x h = elim (Bool-cases (str_eq a x)) [
  | inl e ↦ rw e (subst (λ y. str_eq b y ≡ false) ((eq_iff a x).0 e) (str_eq_comm b a ∙ h))
  | inr e ↦ rw e
]

two_plugins-IsDistinct : IsDistinct (names two_plugins)
unfolding IsDistinct count
two_plugins-IsDistinct x = ground (arith, apart "news" "feed" x refl)

cyclic_plugins-IsDistinct : IsDistinct (names cyclic_plugins)
unfolding IsDistinct count
cyclic_plugins-IsDistinct x = ground (arith, apart "east" "west" x refl)

resolve_returns_example :
    (order : List String) × (problems : List Problem) × (resolve any_version two_plugins
      ≡ some (order, problems))
    × ((x : String) → count x order ≤ count x (names two_plugins))
resolve_returns_example = resolve_returns any_version two_plugins two_plugins-IsDistinct

two_resolved : resolve any_version two_plugins ≡ some ("feed" ∷ "news" ∷ [], [])
unfolding resolve build_graph add_plugins add_dependencies add_found add_edge degree dependents kahn
    ready load relax relax_one check_conflicts conflicts_from conflicts_of
    check_missing_dependencies missing_from missing_of lookup insert
two_resolved = refl

news_requires : requires two_plugins "news" "feed" ≡ true
unfolding requires declared_in lookup
news_requires = refl

resolve_order_example : contains ("feed" ∷ []) "feed" ≡ true
resolve_order_example =
    resolve_order any_version two_plugins two_plugins-IsDistinct ("feed" ∷ "news" ∷ []) []
      two_resolved ("feed" ∷ []) [] "news" "feed" refl news_requires

abbrev cycle_found : List Problem
cycle_found = circular ("east" ∷ "west" ∷ []) ∷ []

cyclic_resolved : resolve any_version cyclic_plugins ≡ some ([], cycle_found)
unfolding resolve build_graph add_plugins add_dependencies add_found add_edge degree dependents kahn
    ready load relax relax_one check_conflicts conflicts_from conflicts_of
    check_missing_dependencies missing_from missing_of lookup insert remaining
cyclic_resolved = refl

left_out_example :
    ((d : String) × (requires cyclic_plugins "east" d ≡ true) × (contains [] d ≡ false))
    × ((before : List Problem) × (cycle_found
          ≡ before ++ circular (remaining [] (names cyclic_plugins)) ∷ []))
    × (contains (remaining [] (names cyclic_plugins)) "east" ≡ true)
left_out_example =
    left_out any_version cyclic_plugins cyclic_plugins-IsDistinct [] cycle_found cyclic_resolved
      "east" refl refl

abbrev feed_first : String → ℕ
feed_first name = if str_eq "feed" name then 0 else 1

feed_first_falls : (x d : String) → requires two_plugins x d ≡ true → feed_first d < feed_first x
unfolding requires declared_in lookup
feed_first_falls x d r = ground (arith, apart "news" "feed" x refl, apart "news" "feed" d refl)

acyclic_loads_example : contains ("feed" ∷ "news" ∷ []) "news" ≡ true
acyclic_loads_example =
    acyclic_loads any_version two_plugins two_plugins-IsDistinct ("feed" ∷ "news" ∷ []) []
      two_resolved feed_first "news" feed_first_falls refl
