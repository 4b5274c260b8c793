-- ===== src/Plugins/Metadata.antt =====
-- What a plugin declares (`PluginDependency`, `PluginMetadata` of
-- src/thumbelina/plugins/dependency.py).
use thumbelina.Prelude.{String, Bool, List}

pub record PluginDependency : Type 0 where
  pub name : String
  pub version_constraint : String
  pub optional : Bool

pub record PluginMetadata : Type 0 where
  pub name : String
  pub version : String
  pub description : String
  pub author : String
  pub dependencies : List PluginDependency
  pub conflicts : List String
