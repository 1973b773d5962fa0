-- ===== src/Deployments/Reach.antt =====
-- How the Services of internal/resources/services reach the pods of internal/resources/deployments.
use cloudnative_supabase.Prelude.{
  ◌≡◌, ◌≢◌, refl, sym, ◌∙◌, String, if◌then◌else◌, =ℤ=_iff, List, [], ◌∷◌, ◌++◌, Option, some, ℤ,
  pos, ◌=ℤ=◌, All, Bool, true, false, ◌||◌, arith,
}
use cloudnative_supabase.Kube.Meta.{Bytes}
use cloudnative_supabase.Kube.Core.{Container, ContainerPort, Deployment, Service}
use cloudnative_supabase.Api.Status.{SecretNamesStatus}
use cloudnative_supabase.Api.Project.{SupabaseProject, selector_labels, component_labels}
use cloudnative_supabase.Common.Url.{Url}
use cloudnative_supabase.Services.{
  build_service, build_auth_service, build_rest_service, build_meta_service,
}
use cloudnative_supabase.Deployments.Helpers.{normalize_replicas, add_image_pull_secrets}
use cloudnative_supabase.Deployments.Helpers.Laws.{Selects, selector_labels_iff, some-injective}
use cloudnative_supabase.Deployments.Meta.{meta_deployment_name, build_meta_deployment}
use cloudnative_supabase.Deployments.Rest.{rest_deployment_name, build_rest_deployment}
use cloudnative_supabase.Deployments.Auth.{auth_deployment_name, build_auth_deployment}

-- The ports that the containers declare.
abbrev ports_of : List ContainerPort → List ℤ
ports_of [] = []
ports_of (port ∷ ports) = port.container_port ∷ ports_of ports

abbrev pod_ports : List Container → List ℤ
pod_ports [] = []
pod_ports (container ∷ containers) = ports_of container.ports ++ pod_ports containers

abbrev member : ℤ → List ℤ → Bool
member port [] = false
member port (declared ∷ more) = port =ℤ= declared || member port more

-- A Service that selects the pods of a Deployment and sends all its traffic to declared ports of
-- theirs, where the Deployment selects its own pods and is not scaled to zero.
pub record Serves (service : Service) (deployment : Deployment) : Type 0 where
  pub same_name : service.meta.name ≡ deployment.meta.name
  pub same_namespace : service.meta.namespace ≡ deployment.meta.namespace
  pub service_selects : Selects service.selector deployment.template.labels
  pub deployment_selects : Selects deployment.selector deployment.template.labels
  pub targets_declared :
      All
        (λ port. member port.target_port (pod_ports deployment.template.spec.containers) ≡ true)
        service.ports
  pub not_scaled_to_zero : deployment.replicas ≢ some (pos 0)

false_ne_true : false ≢ true
false_ne_true h = ground arith

one_ne_zero : pos 1 ≢ pos 0
one_ne_zero h = ground arith

scaled :
    (replicas : ℤ) (test : Bool)
    → (replicas =ℤ= pos 0) ≡ test
    → (if test then pos 1 else replicas) ≢ pos 0
scaled replicas true h e = absurd (one_ne_zero e)
scaled replicas false h e = absurd (false_ne_true (sym h ∙ (=ℤ=_iff replicas (pos 0)).1 e))

normalize_replicas-ne-zero : (replicas : ℤ) → some (normalize_replicas replicas) ≢ some (pos 0)
unfolding normalize_replicas
normalize_replicas-ne-zero replicas h = scaled replicas (replicas =ℤ= pos 0) refl (some-injective h)

own_pods :
    (project : SupabaseProject) (component : String)
    → Selects (selector_labels project component) (component_labels project component)
own_pods project component =
    (selector_labels_iff project project component component).1 (refl, refl)

build_meta_service-Serves :
    (project : SupabaseProject) (secret_names : SecretNamesStatus)
    → Serves (build_meta_service project) (build_meta_deployment project secret_names)
unfolding build_meta_service build_service build_meta_deployment meta_deployment_name
    add_image_pull_secrets
build_meta_service-Serves project secret_names = record {
  same_name = refl;
  same_namespace = refl;
  service_selects = own_pods project "meta";
  deployment_selects = own_pods project "meta";
  targets_declared = (refl, tt);
  not_scaled_to_zero = normalize_replicas-ne-zero project.spec.meta.replicas;
}

build_rest_service-Serves :
    (project : SupabaseProject) (secret_names : SecretNamesStatus)
    → Serves (build_rest_service project) (build_rest_deployment project secret_names)
unfolding build_rest_service build_service build_rest_deployment rest_deployment_name
    add_image_pull_secrets
build_rest_service-Serves project secret_names = record {
  same_name = refl;
  same_namespace = refl;
  service_selects = own_pods project "rest";
  deployment_selects = own_pods project "rest";
  targets_declared = (refl, tt);
  not_scaled_to_zero = normalize_replicas-ne-zero project.spec.rest.replicas;
}

module _ (trim_space : Bytes → Bytes) (parse : Bytes → Option Url) (print : Url → Bytes) where
  build_auth_service-Serves :
      (project : SupabaseProject) (secret_names : SecretNamesStatus)
      → Serves
          (build_auth_service project)
          (build_auth_deployment trim_space parse print project secret_names)
  unfolding build_auth_service build_service build_auth_deployment auth_deployment_name
      add_image_pull_secrets
  build_auth_service-Serves project secret_names = record {
    same_name = refl;
    same_namespace = refl;
    service_selects = own_pods project "auth";
    deployment_selects = own_pods project "auth";
    targets_declared = (refl, tt);
    not_scaled_to_zero = normalize_replicas-ne-zero project.spec.auth.replicas;
  }

  -- The Services of Auth, of PostgREST and of postgres-meta reach their Deployments: they have the
  -- Deployment's name and namespace, they select its pods, as the Deployment itself does, they send
  -- traffic to declared ports of the pods only, and no Deployment is scaled to zero.
  pub core_services-Serves :
      (project : SupabaseProject) (secret_names : SecretNamesStatus)
      → Serves
          (build_auth_service project)
          (build_auth_deployment trim_space parse print project secret_names)
        × Serves (build_rest_service project) (build_rest_deployment project secret_names)
        × Serves (build_meta_service project) (build_meta_deployment project secret_names)
  core_services-Serves project secret_names = (
    build_auth_service-Serves project secret_names,
    build_rest_service-Serves project secret_names,
    build_meta_service-Serves project secret_names,
  )
