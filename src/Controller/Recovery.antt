-- ===== src/Controller/Recovery.antt =====
-- `recoveryBootstrapIntentChanged` and `recoveryObjectStoreIdentityChanged` of
-- internal/controller/supabaseproject_controller.go
pub mod Laws
use cloudnative_supabase.Prelude.{
  String, ◌==◌, Bool, true, false, ◌||◌, not, is_some, Option, none, some, List, [], ◌∷◌, Map,
  if◌then◌else◌,
}
use cloudnative_supabase.Prelude.Maps.{lookup}
use cloudnative_supabase.Kube.Cnpg.{
  ClusterSpec, BootstrapConfiguration, BootstrapRecovery, BootstrapInitDb, ExternalCluster,
  PluginConfiguration, ObjectStore,
}
use cloudnative_supabase.Controller.Semantic.{Semantic, RecoveryExternalClusterIdentityFields}

unfoldable pub recovery_bootstrap : Option BootstrapConfiguration → Option BootstrapRecovery
recovery_bootstrap none = none
recovery_bootstrap (some bootstrap) = bootstrap.recovery

unfoldable pub recovery_source_name : Option BootstrapRecovery → String
recovery_source_name none = ""
recovery_source_name (some recovery) = recovery.source

named_cluster : List ExternalCluster → String → Option ExternalCluster
named_cluster [] name = none
named_cluster (cluster ∷ clusters) name =
    if cluster.name == name then some cluster else named_cluster clusters name

unfoldable pub recovery_external_cluster : List ExternalCluster → String → Option ExternalCluster
unfolding named_cluster
recovery_external_cluster clusters source_name =
    if source_name == "" then none else named_cluster clusters source_name

-- `plugin.Parameters[key]`
abbrev parameter : String → PluginConfiguration → String
parameter key plugin = elim (lookup key plugin.parameters) [ none ↦ "" | some value ↦ value ]

abbrev identity_of_plugin :
    String → Option PluginConfiguration → RecoveryExternalClusterIdentityFields
identity_of_plugin name none = record {
  name = name;
  plugin_name = "";
  barman_object_name = "";
  server_name = "";
}
identity_of_plugin name (some plugin) = record {
  name = name;
  plugin_name = plugin.name;
  barman_object_name = parameter "barmanObjectName" plugin;
  server_name = parameter "serverName" plugin;
}

unfoldable pub recovery_external_cluster_identity :
    ExternalCluster → RecoveryExternalClusterIdentityFields
recovery_external_cluster_identity source =
    identity_of_plugin source.name source.plugin_configuration

init_db_of : Option BootstrapConfiguration → Option BootstrapInitDb
init_db_of none = none
init_db_of (some bootstrap) = bootstrap.init_db

module _ (semantic : Semantic) where
  unfoldable pub init_db_changed : Option BootstrapInitDb → Option BootstrapInitDb → Bool
  init_db_changed none _ = false
  init_db_changed (some _) none = false
  init_db_changed (some existing) (some desired) =
      not (existing.database == desired.database)
      || (not (existing.owner == desired.owner)
          || (not (semantic.secret existing.secret desired.secret)
              || not (
                  semantic.sql_refs existing.post_init_application_sql_refs
                    desired.post_init_application_sql_refs)))

  -- Whether two recoveries differ; one that is missing on one side only does.
  unfoldable pub recovery_changed : Option BootstrapRecovery → Option BootstrapRecovery → Bool
  recovery_changed none none = false
  recovery_changed (some existing) (some desired) = not (semantic.recovery existing desired)
  recovery_changed _ _ = true

  unfoldable pub source_changed : Option ExternalCluster → Option ExternalCluster → Bool
  source_changed none none = false
  source_changed (some existing) (some desired) = not (
      semantic.identity (recovery_external_cluster_identity existing)
        (recovery_external_cluster_identity desired))
  source_changed _ _ = true

  unfoldable pub recovery_bootstrap_intent_changed : ClusterSpec → ClusterSpec → Bool
  unfolding init_db_of
  recovery_bootstrap_intent_changed existing desired =
      let existing_recovery = recovery_bootstrap existing.bootstrap in
      let desired_recovery = recovery_bootstrap desired.bootstrap in
      recovery_changed existing_recovery desired_recovery
      || (init_db_changed (init_db_of existing.bootstrap) (init_db_of desired.bootstrap)
          || source_changed
              (recovery_external_cluster existing.external_clusters
                (recovery_source_name existing_recovery))
              (recovery_external_cluster desired.external_clusters
                (recovery_source_name desired_recovery)))

unfoldable pub recovery_object_store_identity_changed : ObjectStore → ObjectStore → Bool
recovery_object_store_identity_changed existing desired =
    not (existing.configuration.endpoint_url == desired.configuration.endpoint_url)
    || not (existing.configuration.destination_path == desired.configuration.destination_path)
