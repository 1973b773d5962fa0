-- ===== src/Controller/Plugins.antt =====
-- `reconcileBarmanPlugin` of internal/controller/supabaseproject_controller.go
pub mod Laws
use cloudnative_supabase.Prelude.{
  String, ◌==◌, Bool, true, false, ◌||◌, not, Option, none, some, List, [], ◌∷◌, ◌++◌,
  if◌then◌else◌,
}
use cloudnative_supabase.Kube.Cnpg.{PluginConfiguration}
use cloudnative_supabase.Cnpg.Cluster.{barman_cloud_plugin_name}
use cloudnative_supabase.Controller.Semantic.{Semantic}

abbrev pub is_barman : PluginConfiguration → Bool
is_barman plugin = plugin.name == barman_cloud_plugin_name

-- The first loop.
unfoldable pub barman_plugin : List PluginConfiguration → Option PluginConfiguration
barman_plugin [] = none
barman_plugin (plugin ∷ plugins) = if is_barman plugin then some plugin else barman_plugin plugins

-- `result`, `found` and `changed` of the second loop.
pub record Walk : Type 0 where
  pub result : List PluginConfiguration
  pub found : Bool
  pub changed : Bool

module _ (semantic : Semantic) where
  -- What a round adds to the walk over the later plugins.
  unfoldable pub visit : Option PluginConfiguration → PluginConfiguration → Walk → Walk
  visit desired_plugin plugin rest =
      if not (is_barman plugin)
      then record rest { result = plugin ∷ rest.result }
      else elim desired_plugin [
        | none ↦ record rest { changed = true }
        | some desired ↦ record {
          result = desired ∷ rest.result;
          found = true;
          changed = not (semantic.plugin plugin desired) || rest.changed;
        }
      ]

  unfoldable pub walk : Option PluginConfiguration → List PluginConfiguration → Walk
  walk desired_plugin [] = record { result = []; found = false; changed = false }
  walk desired_plugin (plugin ∷ plugins) = visit desired_plugin plugin (walk desired_plugin plugins)

  -- `if desiredPlugin != nil && !found`
  unfoldable pub append_missing :
      Option PluginConfiguration → Walk → List PluginConfiguration × Bool
  append_missing none w = (w.result, w.changed)
  append_missing (some desired) w =
      if w.found then (w.result, w.changed) else (w.result ++ desired ∷ [], true)

  unfoldable pub reconcile_barman_plugin :
      List PluginConfiguration → List PluginConfiguration → List PluginConfiguration × Bool
  reconcile_barman_plugin existing desired =
      let desired_plugin = barman_plugin desired in
      append_missing desired_plugin (walk desired_plugin existing)
