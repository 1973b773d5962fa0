-- ===== src/Cnpg/Coherence.antt =====
-- The references between the objects that internal/resources/cnpg builds for one project.
use cloudnative_supabase.Prelude.{
  ◌≡◌, refl, ◌⊎◌, inl, inr, is_some, true, Option, none, some, [], ◌∷◌, Option-cases,
}
use cloudnative_supabase.Prelude.Maps.{lookup}
use cloudnative_supabase.Kube.Cnpg.{
  Cluster, PluginConfiguration, ObjectStore, ScheduledBackup, ExternalCluster,
  BootstrapConfiguration, BootstrapRecovery,
}
use cloudnative_supabase.Api.Status.{SecretNamesStatus}
use cloudnative_supabase.Api.Project.{SupabaseProject}
use cloudnative_supabase.Cnpg.Cluster.{
  enabled_backup, enabled_recovery, barman_cloud_plugin_name, build_bootstrap_configuration,
  backup_plugin, recovery_plugin, recovery_source, bootstrap_recovery, backup_plugins,
  recovery_external_clusters, build_cluster,
}
use cloudnative_supabase.Cnpg.Backup.{
  object_store, recovery_object_store, scheduled_backup, build_object_store,
  build_recovery_object_store, build_scheduled_backup,
}

-- A plugin archives to a store, and a schedule makes backups of the cluster with that plugin.
abbrev pub BacksUp : Cluster → PluginConfiguration → ObjectStore → ScheduledBackup → Type 0
BacksUp cluster plugin store schedule =
    (plugin.is_wal_archiver ≡ some true)
    × (lookup "barmanObjectName" plugin.parameters ≡ some store.meta.name)
    × (store.meta.namespace ≡ cluster.meta.namespace)
    × (schedule.cluster.name ≡ cluster.meta.name)
    × (schedule.meta.namespace ≡ cluster.meta.namespace)
    × (schedule.method ≡ "plugin")

-- The objects of a cluster's backups: all of them, or none.
abbrev pub IsBackupPlan : Cluster → Option ObjectStore → Option ScheduledBackup → Type 0
IsBackupPlan cluster store schedule =
    ((cluster.spec.plugins ≡ []) × (store ≡ none) × (schedule ≡ none))
    ⊎ ((plugin : PluginConfiguration) × (s : ObjectStore) × (b : ScheduledBackup)
        × (cluster.spec.plugins ≡ plugin ∷ [])
        × (store ≡ some s)
        × (schedule ≡ some b)
        × BacksUp cluster plugin s b)

-- A project's cluster, its backup store and its scheduled backup go together: either there is no
-- plugin, no store and no schedule; or the cluster has exactly one plugin, a WAL archiver that names
-- the store, and the schedule names the cluster and the plugin method, all in one namespace.
pub build_cluster-IsBackupPlan :
    (project : SupabaseProject) (secret_names : SecretNamesStatus)
    → IsBackupPlan
        (build_cluster project secret_names)
        (build_object_store project)
        (build_scheduled_backup project)
unfolding build_cluster build_object_store build_scheduled_backup backup_plugins lookup
build_cluster-IsBackupPlan project secret_names =
    elim (Option-cases (enabled_backup project.spec.database.backup)) [
      | inl e ↦ inl (
        rw (e, backup_plugins, build_cluster) refl,
        rw (e, build_object_store) refl,
        rw (e, build_scheduled_backup) refl,
      )
      | inr (backup, e) ↦ inr (
        backup_plugin project,
        object_store project backup,
        scheduled_backup project backup,
        rw (e, backup_plugins, build_cluster) refl,
        rw (e, build_object_store) refl,
        rw (e, build_scheduled_backup) refl,
        (refl, refl, refl, refl, refl, refl),
      )
    ]

-- A cluster that bootstraps by recovery reads one external cluster, which names a store.
abbrev pub RecoversFrom :
    Cluster → ExternalCluster → PluginConfiguration → BootstrapRecovery → ObjectStore → Type 0
RecoversFrom cluster source plugin recovery store =
    (recovery.source ≡ source.name)
    × (source.plugin_configuration ≡ some plugin)
    × (plugin.name ≡ barman_cloud_plugin_name)
    × (lookup "barmanObjectName" plugin.parameters ≡ some store.meta.name)
    × (store.meta.namespace ≡ cluster.meta.namespace)

-- The cluster of a project recovers from its recovery store, or starts empty.
abbrev pub IsStart : Cluster → BootstrapConfiguration → Option ObjectStore → Type 0
IsStart cluster bootstrap store =
    ((cluster.spec.external_clusters ≡ [])
      × (bootstrap.recovery ≡ none)
      × (is_some bootstrap.init_db ≡ true)
      × (store ≡ none))
    ⊎ ((source : ExternalCluster) × (plugin : PluginConfiguration) × (recovery : BootstrapRecovery)
        × (s : ObjectStore) × (cluster.spec.external_clusters ≡ source ∷ [])
        × (bootstrap.recovery ≡ some recovery)
        × (bootstrap.init_db ≡ none)
        × (store ≡ some s)
        × RecoversFrom cluster source plugin recovery s)

-- A project's cluster, its bootstrap and its recovery store go together: either the database starts
-- empty, with no external cluster and no recovery store; or there is no initialisation, and the
-- recovery reads the only external cluster, whose plugin names the store, in the same namespace.
pub build_cluster-IsStart :
    (project : SupabaseProject) (secret_names : SecretNamesStatus)
    → (bootstrap : BootstrapConfiguration) × ((build_cluster project secret_names).spec.bootstrap
        ≡ some bootstrap)
      × IsStart (build_cluster project secret_names) bootstrap (build_recovery_object_store project)
unfolding build_cluster build_recovery_object_store build_bootstrap_configuration
    recovery_external_clusters lookup
build_cluster-IsStart project secret_names =
    elim (Option-cases (enabled_recovery project.spec.database.recovery)) [
      | inl e ↦ (
        _,
        refl,
        inl (
          rw (e, recovery_external_clusters, build_cluster) refl,
          rw (e, build_bootstrap_configuration) refl,
          rw (e, is_some, build_bootstrap_configuration) refl,
          rw (e, build_recovery_object_store) refl,
        ),
      )
      | inr (recovery, e) ↦ (
        _,
        refl,
        inr (
          recovery_source project recovery,
          recovery_plugin project recovery,
          bootstrap_recovery project secret_names recovery,
          recovery_object_store project recovery,
          rw (e, recovery_external_clusters, build_cluster) refl,
          rw (e, build_bootstrap_configuration) refl,
          rw (e, build_bootstrap_configuration) refl,
          rw (e, build_recovery_object_store) refl,
          (refl, refl, refl, refl, refl),
        ),
      )
    ]
