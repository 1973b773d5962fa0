-- ===== src/Deployments/Meta.antt =====
-- internal/resources/deployments/meta.go: postgres-meta.
use cloudnative_supabase.Prelude.{String, ◌<>◌, ◌==◌, [], ◌∷◌, pos, some, if◌then◌else◌, codes}
use cloudnative_supabase.Kube.Core.{Deployment}
use cloudnative_supabase.Api.Status.{SecretNamesStatus}
use cloudnative_supabase.Api.Project.{SupabaseProject}
use cloudnative_supabase.Common.Names.{cluster_rw_service_name}
use cloudnative_supabase.Crypto.Decimal.{format_int}
use cloudnative_supabase.Deployments.AuthEnv.{plain, from_secret}
use cloudnative_supabase.Deployments.Helpers.{
  normalize_replicas, add_image_pull_secrets, build_liveness_probe, build_readiness_probe,
  http_port, container_with, pod_with, deployment_with,
}

unfoldable pub meta_deployment_name : SupabaseProject → String
meta_deployment_name project = project.name <> "-meta"

unfoldable pub build_meta_deployment : SupabaseProject → SecretNamesStatus → Deployment
unfolding meta_deployment_name
build_meta_deployment project secret_names =
    let spec = project.spec.meta in
    let tag = if spec.image_tag == "" then "v0.95.1" else spec.image_tag in
    let env =
      plain "PG_META_DB_HOST" (codes (cluster_rw_service_name project))
      ∷ plain "PG_META_DB_PORT" (codes "5432")
      ∷ plain "PG_META_DB_NAME" (codes "supabase")
      ∷ plain "PG_META_DB_SSL_MODE" (codes "disable")
      ∷ plain "PG_META_PORT" (format_int (pos 8080))
      ∷ from_secret "PG_META_DB_USER" secret_names.supabase_admin "username"
      ∷ from_secret "PG_META_DB_PASSWORD" secret_names.supabase_admin "password"
      ∷ [] in
    let container = record (container_with "meta" ("supabase/postgres-meta:" <> tag)) {
      env = env;
      ports = http_port (pos 8080);
      liveness_probe = some (build_liveness_probe "/health" (pos 8080));
      readiness_probe = some (build_readiness_probe "/health" (pos 8080));
      resources = spec.resources;
    } in
    deployment_with project (meta_deployment_name project) "meta" (normalize_replicas spec.replicas)
      (add_image_pull_secrets (pod_with [] (container ∷ [])) project)
