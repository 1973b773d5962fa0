-- ===== src/Deployments/Rest.antt =====
-- internal/resources/deployments/rest.go: PostgREST.
use cloudnative_supabase.Prelude.{
  String, ◌<>◌, ◌==◌, List, [], ◌∷◌, ◌++◌, pos, some, none, if◌then◌else◌, codes,
}
use cloudnative_supabase.Kube.Meta.{Bytes}
use cloudnative_supabase.Kube.Core.{EnvVar, Container, Deployment}
use cloudnative_supabase.Api.Status.{SecretNamesStatus}
use cloudnative_supabase.Api.Project.{SupabaseProject}
use cloudnative_supabase.Common.Names.{
  cluster_rw_service_name, jwks_config_map_name, get_access_token_expiration,
}
use cloudnative_supabase.Crypto.Decimal.{format_int}
use cloudnative_supabase.Deployments.AuthEnv.{plain, from_secret, build_database_env}
use cloudnative_supabase.Deployments.Helpers.{
  normalize_replicas, add_image_pull_secrets, build_liveness_probe, build_readiness_probe,
  http_port, container_with, pod_with, deployment_with,
}

unfoldable pub rest_deployment_name : SupabaseProject → String
rest_deployment_name project = project.name <> "-rest"

-- `strings.Join(texts, ",")`
join_commas : List String → Bytes
join_commas [] = []
join_commas (text ∷ []) = codes text
join_commas (text ∷ next ∷ texts) = codes text ++ codes "," ++ join_commas (next ∷ texts)

-- `schemas := []string{"public"}; if len(spec.Schemas) > 0 { schemas = spec.Schemas }`
abbrev schemas_of : List String → List String
schemas_of [] = "public" ∷ []
schemas_of (schema ∷ schemas) = schema ∷ schemas

unfoldable pub build_rest_env : SupabaseProject → SecretNamesStatus → List EnvVar
unfolding join_commas
build_rest_env project secret_names =
    let spec = project.spec.rest in
    build_database_env (codes (cluster_rw_service_name project))
    ++ (plain "PGRST_DB_SCHEMAS" (join_commas (schemas_of spec.schemas))
        ∷ plain "PGRST_DB_ANON_ROLE" (codes "anon")
        ∷ plain "PGRST_DB_USE_LEGACY_GUCS" (codes "false")
        ∷ plain "PGRST_APP_SETTINGS_JWT_EXP" (format_int (get_access_token_expiration project))
        ∷ from_secret "DB_USER" secret_names.authenticator "username"
        ∷ from_secret "DB_PASSWORD" secret_names.authenticator "password"
        ∷ record {
          name = "PGRST_JWT_SECRET";
          value = [];
          value_from = some (record {
            secret_key_ref = none;
            config_map_key_ref = some (record {
              name = jwks_config_map_name project;
              key = "jwks.json";
              optional = none;
            });
          });
        }
        ∷ plain "PGRST_JWT_ALG" (codes "ES256")
        ∷ plain "PGRST_DB_URI" (
            codes
              "$(DB_DRIVER)://$(DB_USER):$(DB_PASSWORD)@$(DB_HOST):$(DB_PORT)/$(DB_NAME)?sslmode=$(DB_SSL)")
        ∷ [])

unfoldable pub build_rest_db_init_container : SecretNamesStatus → String → Container
build_rest_db_init_container secret_names db_host =
    record (container_with "init-db" "postgres:15-alpine") {
      env =
          plain "DB_HOST" (codes db_host)
          ∷ plain "DB_PORT" (codes "5432")
          ∷ from_secret "DB_USER" secret_names.authenticator "username"
          ∷ [];
      command = "/bin/sh" ∷ "-c" ∷ [];
      args =
          "until pg_isready -h $(DB_HOST) -p $(DB_PORT) -U $(DB_USER); do\necho \"Waiting for database to start...\"\nsleep 2\ndone\necho \"Database is ready\""
          ∷ [];
    }

unfoldable pub build_rest_deployment : SupabaseProject → SecretNamesStatus → Deployment
unfolding rest_deployment_name
build_rest_deployment project secret_names =
    let spec = project.spec.rest in
    let tag = if spec.image_tag == "" then "v14.12" else spec.image_tag in
    let container = record (container_with "rest" ("postgrest/postgrest:" <> tag)) {
      env = build_rest_env project secret_names;
      ports = http_port (pos 3000);
      liveness_probe = some (build_liveness_probe "/" (pos 3000));
      readiness_probe = some (build_readiness_probe "/" (pos 3000));
      resources = spec.resources;
    } in
    let first = build_rest_db_init_container secret_names (cluster_rw_service_name project) in
    deployment_with project (rest_deployment_name project) "rest" (normalize_replicas spec.replicas)
      (add_image_pull_secrets (pod_with (first ∷ []) (container ∷ [])) project)
