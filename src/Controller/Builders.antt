-- ===== src/Controller/Builders.antt =====
-- The interface between the reconciler and the packages that build the larger workloads and texts:
-- internal/resources/deployments, internal/resources/configmaps and internal/resources/jobs.
use cloudnative_supabase.Prelude.{Option, Result}
use cloudnative_supabase.Kube.Core.{Deployment, ConfigMap, CronJob, Job}
use cloudnative_supabase.Api.Status.{SecretNamesStatus}
use cloudnative_supabase.Api.Project.{SupabaseProject}

pub record Builders : Type 0 where
  pub build_auth_deployment : SupabaseProject → SecretNamesStatus → Deployment
  pub build_rest_deployment : SupabaseProject → SecretNamesStatus → Deployment
  pub build_studio_deployment : SupabaseProject → SecretNamesStatus → Deployment
  pub build_meta_deployment : SupabaseProject → SecretNamesStatus → Deployment
  pub build_gateway_deployment : SupabaseProject → Deployment
  pub build_powersync_api_deployment : SupabaseProject → SecretNamesStatus → Deployment
  pub build_powersync_replication_deployment : SupabaseProject → SecretNamesStatus → Deployment
  pub build_powersync_compact_cron_job : SupabaseProject → SecretNamesStatus → Option CronJob
  pub build_envoy_config_map : SupabaseProject → ConfigMap
  pub build_init_sql_config_map : SupabaseProject → ConfigMap
  pub build_powersync_config_map : SupabaseProject → ConfigMap
  pub build_cdc_migrations_config_map : SupabaseProject → Result ConfigMap
  pub build_cdc_permissions_job : SupabaseProject → SecretNamesStatus → Job
