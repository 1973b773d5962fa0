-- ===== src/Common/Names.antt =====
-- internal/resources/common/names.go and jwt.go, and the names that other packages derive.
use cloudnative_supabase.Prelude.{String, ◌<>◌, ℤ, pos, leb_ℤ, if◌then◌else◌}
use cloudnative_supabase.Api.Project.{SupabaseProject}

unfoldable pub envoy_config_map_name : SupabaseProject → String
envoy_config_map_name project = project.name <> "-envoy-config"

unfoldable pub jwks_config_map_name : SupabaseProject → String
jwks_config_map_name project = project.name <> "-auth-jwks"

unfoldable pub gateway_name : SupabaseProject → String
gateway_name project = project.name <> "-api-gw"

unfoldable pub get_access_token_expiration : SupabaseProject → ℤ
get_access_token_expiration project =
    let seconds = project.spec.auth.access_token_expiration_seconds in
    if leb_ℤ (pos 1) seconds then seconds else pos 3600

-- internal/resources/secrets/secrets.go
unfoldable pub go_true_fallback_secret_name : SupabaseProject → String
go_true_fallback_secret_name project = project.name <> "-gotrue-jwt-secret"

unfoldable pub email_hook_secret_name : SupabaseProject → String
email_hook_secret_name project = project.name <> "-email-hook"

-- internal/resources/cnpg
unfoldable pub cluster_name : SupabaseProject → String
cluster_name project = project.name <> "-pg"

unfoldable pub cluster_rw_service_name : SupabaseProject → String
unfolding cluster_name
cluster_rw_service_name project = cluster_name project <> "-rw"

unfoldable pub recovery_source_name : SupabaseProject → String
recovery_source_name project = project.name <> "-recovery-source"

unfoldable pub scheduled_backup_name : SupabaseProject → String
scheduled_backup_name project = project.name <> "-backup"

unfoldable pub object_store_name : SupabaseProject → String
object_store_name project = project.name <> "-backup"

unfoldable pub recovery_object_store_name : SupabaseProject → String
recovery_object_store_name project = project.name <> "-recovery"

-- internal/resources/configmaps/init_sql.go
unfoldable pub init_sql_config_map_name : SupabaseProject → String
init_sql_config_map_name project = project.name <> "-init-sql"

-- internal/resources/secrets/secrets.go
unfoldable pub powersync_storage_secret_name : SupabaseProject → String
powersync_storage_secret_name project = project.name <> "-powersync-storage-password"

unfoldable pub powersync_replication_secret_name : SupabaseProject → String
powersync_replication_secret_name project = project.name <> "-powersync-replication-password"

unfoldable pub powersync_api_token_secret_name : SupabaseProject → String
powersync_api_token_secret_name project = project.name <> "-powersync-api-token"

-- internal/resources/deployments/powersync.go
unfoldable pub powersync_api_deployment_name : SupabaseProject → String
powersync_api_deployment_name project = project.name <> "-powersync-api"

unfoldable pub powersync_replication_deployment_name : SupabaseProject → String
powersync_replication_deployment_name project = project.name <> "-powersync-replication"

unfoldable pub powersync_compact_cron_job_name : SupabaseProject → String
powersync_compact_cron_job_name project = project.name <> "-powersync-compact"

-- internal/resources/configmaps/powersync.go
unfoldable pub powersync_config_map_name : SupabaseProject → String
powersync_config_map_name project = project.name <> "-powersync-config"

unfoldable pub powersync_sync_rules_config_map_name : SupabaseProject → String
powersync_sync_rules_config_map_name project = project.name <> "-powersync-sync-rules"

-- internal/resources/jobs/cdc_permissions.go
unfoldable pub cdc_config_map_name : SupabaseProject → String
cdc_config_map_name project = project.name <> "-cdc-migrations"

unfoldable pub cdc_job_name : SupabaseProject → String
cdc_job_name project = project.name <> "-cdc-permissions"
