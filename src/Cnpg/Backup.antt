-- ===== src/Cnpg/Backup.antt =====
-- internal/resources/cnpg/objectstore.go, scheduled_backup.go and publication.go
use cloudnative_supabase.Prelude.{
  String, ◌<>◌, ◌==◌, Option, none, some, [], pos, Result, ok, ◌>>=◌, if◌then◌else◌,
}
use cloudnative_supabase.Kube.Cnpg.{S3Credentials, ObjectStore, ScheduledBackup, Publication}
use cloudnative_supabase.Api.Database.{BackupSpec, RecoverySpec}
use cloudnative_supabase.Api.Project.{SupabaseProject}
use cloudnative_supabase.Api.Schemas.{effective_publication_schemas}
use cloudnative_supabase.Common.Names.{
  cluster_name, object_store_name, recovery_object_store_name, scheduled_backup_name,
}
use cloudnative_supabase.Cnpg.Cluster.{
  component_meta, enabled_backup, enabled_recovery, barman_cloud_plugin_name, database_name,
}

-- The two keys of the Secret that a store is read with.
abbrev pub s3_credentials : String → S3Credentials
s3_credentials secret = record {
  access_key_id = some (record { name = secret; key = "ACCESS_KEY_ID" });
  secret_access_key = some (record { name = secret; key = "SECRET_ACCESS_KEY" });
}

abbrev gzip_or : String → String
gzip_or compression = if compression == "" then "gzip" else compression

abbrev pub object_store : SupabaseProject → BackupSpec → ObjectStore
object_store project backup = record {
  meta = component_meta project (object_store_name project) "backup";
  configuration = record {
    barman_credentials = some (s3_credentials backup.s3_credentials_secret);
    endpoint_url = backup.endpoint_url;
    destination_path = backup.destination_path;
    wal = some (record { compression = gzip_or backup.wal_compression; max_parallel = pos 2 });
    data_ = some (record { compression = gzip_or backup.data_compression });
    rest = "";
  };
  retention_policy = backup.retention_policy;
  rest = "";
}

unfoldable pub build_object_store : SupabaseProject → Option ObjectStore
build_object_store project = elim (enabled_backup project.spec.database.backup) [
  | none ↦ none
  | some backup ↦ some (object_store project backup)
]

abbrev pub recovery_object_store : SupabaseProject → RecoverySpec → ObjectStore
recovery_object_store project recovery = record {
  meta = component_meta project (recovery_object_store_name project) "recovery";
  configuration = record {
    barman_credentials = some (s3_credentials recovery.s3_credentials_secret);
    endpoint_url = recovery.endpoint_url;
    destination_path = recovery.destination_path;
    wal = none;
    data_ = none;
    rest = "";
  };
  retention_policy = "";
  rest = "";
}

unfoldable pub build_recovery_object_store : SupabaseProject → Option ObjectStore
build_recovery_object_store project = elim (enabled_recovery project.spec.database.recovery) [
  | none ↦ none
  | some recovery ↦ some (recovery_object_store project recovery)
]

abbrev pub scheduled_backup : SupabaseProject → BackupSpec → ScheduledBackup
scheduled_backup project backup = record {
  meta = component_meta project (scheduled_backup_name project) "backup";
  schedule = if backup.schedule == "" then "0 0 2 * * *" else backup.schedule;
  cluster = record { name = cluster_name project };
  backup_owner_reference = "self";
  method = "plugin";
  plugin_configuration = some (record {
    name = barman_cloud_plugin_name;
    enabled = none;
    is_wal_archiver = none;
    parameters = [];
  });
  rest = "";
}

unfoldable pub build_scheduled_backup : SupabaseProject → Option ScheduledBackup
build_scheduled_backup project = elim (enabled_backup project.spec.database.backup) [
  | none ↦ none
  | some backup ↦ some (scheduled_backup project backup)
]

unfoldable pub build_power_sync_publication : SupabaseProject → Result Publication
build_power_sync_publication project = effective_publication_schemas project >>= λ schemas.
    ok (record {
      meta = component_meta project (project.name <> "-powersync") "powersync-publication";
      spec = record {
        cluster_ref = record { name = cluster_name project };
        name = "powersync";
        db_name = database_name;
        tables_in_schema = schemas;
        reclaim_policy = "delete";
      };
      observed_generation = pos 0;
      applied = none;
      message = "";
    })
