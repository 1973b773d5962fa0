-- ===== src/Cnpg/Cluster.antt =====
-- internal/resources/cnpg/cluster.go: the cluster of a project.
use cloudnative_supabase.Prelude.{
  String, ◌==◌, true, ◌||◌, is_some, Option, none, some, List, [], ◌∷◌, ◌++◌, ℤ, pos, leb_ℤ,
  if◌then◌else◌,
}
use cloudnative_supabase.Kube.Meta.{ObjectMeta}
use cloudnative_supabase.Kube.Core.{ResourceRequirements}
use cloudnative_supabase.Kube.Cnpg.{
  BootstrapConfiguration, BootstrapRecovery, PluginConfiguration, ExternalCluster, Cluster,
}
use cloudnative_supabase.Api.Database.{BackupSpec, RecoverySpec}
use cloudnative_supabase.Api.Status.{SecretNamesStatus}
use cloudnative_supabase.Api.Project.{SupabaseProject, component_labels}
use cloudnative_supabase.Common.Names.{
  cluster_name, recovery_source_name, object_store_name, recovery_object_store_name,
  init_sql_config_map_name,
}
use cloudnative_supabase.Cnpg.Parameters.{default_parameters, merge_parameters}
use cloudnative_supabase.Cnpg.Roles.{build_all_roles}

abbrev pub owner_role : String
owner_role = "supabase_admin"

abbrev pub database_name : String
database_name = "supabase"

abbrev pub barman_cloud_plugin_name : String
barman_cloud_plugin_name = "barman-cloud.cloudnative-pg.io"

-- `metav1.ObjectMeta{Name: name, Namespace: project.Namespace, Labels: common.ComponentLabels(...)}`
abbrev pub component_meta : SupabaseProject → String → String → ObjectMeta
component_meta project name component = record {
  name = name;
  namespace = project.namespace;
  labels = component_labels project component;
  annotations = [];
  owner_references = [];
  uid = "";
  generation = pos 0;
}

-- `spec.Backup != nil && spec.Backup.Enabled`
abbrev pub enabled_backup : Option BackupSpec → Option BackupSpec
enabled_backup none = none
enabled_backup (some backup) = if backup.enabled then some backup else none

-- `spec.Recovery != nil && spec.Recovery.Enabled`
abbrev pub enabled_recovery : Option RecoverySpec → Option RecoverySpec
enabled_recovery none = none
enabled_recovery (some recovery) = if recovery.enabled then some recovery else none

abbrev init_db_bootstrap : SupabaseProject → SecretNamesStatus → BootstrapConfiguration
init_db_bootstrap project secret_names = record {
  init_db = some (record {
    database = database_name;
    owner = owner_role;
    secret = some (record { name = secret_names.supabase_admin });
    post_init_application_sql_refs = some (record {
      config_map_refs = record { name = init_sql_config_map_name project; key = "init.sql" } ∷ [];
    });
  });
  recovery = none;
}

abbrev pub bootstrap_recovery :
    SupabaseProject → SecretNamesStatus → RecoverySpec → BootstrapRecovery
bootstrap_recovery project secret_names recovery = record {
  source = recovery_source_name project;
  recovery_target =
      if recovery.target_time == ""
      then none
      else some (record { target_time = recovery.target_time });
  database = database_name;
  owner = owner_role;
  secret = some (record { name = secret_names.supabase_admin });
}

unfoldable pub build_bootstrap_configuration :
    SupabaseProject → SecretNamesStatus → BootstrapConfiguration
build_bootstrap_configuration project secret_names =
    elim (enabled_recovery project.spec.database.recovery) [
      | none ↦ init_db_bootstrap project secret_names
      | some recovery ↦ record {
        init_db = none;
        recovery = some (bootstrap_recovery project secret_names recovery);
      }
    ]

abbrev pub backup_plugin : SupabaseProject → PluginConfiguration
backup_plugin project = record {
  name = barman_cloud_plugin_name;
  enabled = some true;
  is_wal_archiver = some true;
  parameters = ("barmanObjectName", object_store_name project) ∷ [];
}

-- `cluster.Spec.Plugins`
unfoldable pub backup_plugins : SupabaseProject → List PluginConfiguration
backup_plugins project = elim (enabled_backup project.spec.database.backup) [
  | none ↦ []
  | some _ ↦ backup_plugin project ∷ []
]

abbrev pub recovery_plugin : SupabaseProject → RecoverySpec → PluginConfiguration
recovery_plugin project recovery = record {
  name = barman_cloud_plugin_name;
  enabled = none;
  is_wal_archiver = none;
  parameters =
      ("barmanObjectName", recovery_object_store_name project)
      ∷ ("serverName", recovery.server_name)
      ∷ [];
}

abbrev pub recovery_source : SupabaseProject → RecoverySpec → ExternalCluster
recovery_source project recovery = record {
  name = recovery_source_name project;
  plugin_configuration = some (recovery_plugin project recovery);
  rest = "";
}

-- `cluster.Spec.ExternalClusters`
unfoldable pub recovery_external_clusters : SupabaseProject → List ExternalCluster
recovery_external_clusters project = elim (enabled_recovery project.spec.database.recovery) [
  | none ↦ []
  | some recovery ↦ recovery_source project recovery ∷ []
]

abbrev pg_hba_rules : List String
pg_hba_rules =
    "local all all trust" ∷ "host all all 10.42.0.0/16 scram-sha-256"
    ∷ "host all all 10.43.0.0/16 scram-sha-256" ∷ "host all all 10.0.0.0/8 scram-sha-256"
    ∷ "host all all 172.16.0.0/12 scram-sha-256" ∷ "host all all 192.168.0.0/16 scram-sha-256" ∷ []

-- `if instances <= 0 { instances = 1 }`
unfoldable pub instances_of : SupabaseProject → ℤ
instances_of project =
    let instances = project.spec.database.instances in
    if leb_ℤ instances (pos 0) then pos 1 else instances

abbrev no_resources : ResourceRequirements
no_resources = record { requests = none; limits = none }

unfoldable pub build_cluster : SupabaseProject → SecretNamesStatus → Cluster
unfolding instances_of build_bootstrap_configuration build_all_roles backup_plugins
    recovery_external_clusters
build_cluster project secret_names =
    let spec = project.spec.database in
    let instances = instances_of project in
    record {
      meta = component_meta project (cluster_name project) "postgresql";
      spec = record {
        instances = instances;
        image_name =
            if spec.image == "" then "ghcr.io/cloudnative-pg/postgresql:17" else spec.image;
        enable_superuser_access = some spec.enable_superuser_access;
        bootstrap = some (build_bootstrap_configuration project secret_names);
        postgres_configuration = record {
          parameters = merge_parameters default_parameters spec.parameters;
          pg_hba = pg_hba_rules;
          additional_libraries =
              ("pg_stat_statements" ∷ "pgaudit" ∷ "auto_explain" ∷ [])
              ++ spec.additional_preload_libraries;
        };
        storage_configuration = spec.storage;
        managed = some (record { roles = build_all_roles project secret_names; rest = "" });
        resources =
            if is_some spec.resources.requests || is_some spec.resources.limits
            then spec.resources
            else no_resources;
        affinity = record {
          enable_pod_anti_affinity = if leb_ℤ instances (pos 1) then none else some true;
          rest = "";
        };
        plugins = backup_plugins project;
        external_clusters = recovery_external_clusters project;
        rest = "";
      };
      status = record {
        ready_instances = pos 0;
        phase = "";
        current_primary = "";
        cannot_reconcile = [];
        roles_by_status = [];
      };
    }
