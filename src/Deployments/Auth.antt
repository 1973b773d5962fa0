-- ===== src/Deployments/Auth.antt =====
-- internal/resources/deployments/auth.go: GoTrue.
use cloudnative_supabase.Prelude.{
  String, ◌<>◌, ◌==◌, List, [], ◌∷◌, pos, Option, some, none, if◌then◌else◌, codes,
}
use cloudnative_supabase.Kube.Meta.{Bytes}
use cloudnative_supabase.Kube.Core.{LocalObjectReference, Deployment}
use cloudnative_supabase.Api.Auth.{AuthProvidersSpec}
use cloudnative_supabase.Api.Status.{SecretNamesStatus}
use cloudnative_supabase.Api.Project.{SupabaseProject}
use cloudnative_supabase.Common.Names.{cluster_rw_service_name}
use cloudnative_supabase.Common.Url.{Url}
use cloudnative_supabase.Deployments.AuthEnv.{build_auth_env}
use cloudnative_supabase.Deployments.Helpers.{
  normalize_replicas, add_image_pull_secrets, build_liveness_probe, build_readiness_probe,
  http_port, container_with, pod_with, deployment_with,
}

unfoldable pub auth_deployment_name : SupabaseProject → String
auth_deployment_name project = project.name <> "-auth"

-- The Secret of the providers' settings, if one is named.
provider_secrets : Option AuthProvidersSpec → List LocalObjectReference
provider_secrets none = []
provider_secrets (some providers) =
    if providers.secret_ref == "" then [] else record { name = providers.secret_ref } ∷ []

module _ (trim_space : Bytes → Bytes) (parse : Bytes → Option Url) (print : Url → Bytes) where
  unfoldable pub build_auth_deployment : SupabaseProject → SecretNamesStatus → Deployment
  unfolding auth_deployment_name provider_secrets
  build_auth_deployment project secret_names =
      let spec = project.spec.auth in
      let tag = if spec.image_tag == "" then "v2.189.0" else spec.image_tag in
      let container = record (container_with "auth" ("supabase/gotrue:" <> tag)) {
        env =
            build_auth_env project secret_names trim_space parse print
              (codes (cluster_rw_service_name project));
        env_from = provider_secrets spec.providers;
        ports = http_port (pos 9999);
        liveness_probe = some (build_liveness_probe "/health" (pos 9999));
        readiness_probe = some (build_readiness_probe "/health" (pos 9999));
        resources = spec.resources;
      } in
      deployment_with project (auth_deployment_name project) "auth"
        (normalize_replicas spec.replicas)
        (add_image_pull_secrets (pod_with [] (container ∷ [])) project)
