-- ===== src/Tests/Reconciler.antt =====
-- Owners, labels, defaults, readiness and events on concrete objects.
use cloudnative_supabase.Prelude.{
  ◌≡◌, refl, String, true, Option, none, some, List, [], ◌∷◌, ok, pos,
}
use cloudnative_supabase.Kube.Meta.{OwnerReference}
use cloudnative_supabase.Kube.Core.{Container, PodTemplateSpec}
use cloudnative_supabase.Controller.Ownership.{
  is_project_owner, remove_supabase_project_owner_reference,
}
use cloudnative_supabase.Deployments.Helpers.{container_with, http_port, build_liveness_probe}
use cloudnative_supabase.Controller.Ownership.{filter_owners}
use cloudnative_supabase.Controller.Ownership.Laws.{
  Removed, Owned, remove_supabase_project_owner_reference-Removed,
}
use cloudnative_supabase.Controller.Defaults.{
  normalize_pod_template_defaults, normalize_container_defaults, normalize_probe_defaults,
}
use cloudnative_supabase.Tests.Objects.{test_project, test_metadata}
use cloudnative_supabase.Prelude.{◌↔◌}
use cloudnative_supabase.Kube.Meta.{NamespacedName}
use cloudnative_supabase.Kube.Core.{Deployment}
use cloudnative_supabase.Kube.Cnpg.{ClusterStatus}
use cloudnative_supabase.Prelude.Maps.{lookup}
use cloudnative_supabase.Controller.Readiness.{
  deployment_is_ready, power_sync_managed_roles_ready, elements,
  map_project_credentials_secret_to_projects,
}
use cloudnative_supabase.Controller.Readiness.Laws.{
  Member, Woken, power_sync_managed_roles_ready_iff, map_project_credentials_secret_to_projects_iff,
}

-- A version string that is its own group, without a version.
abbrev group_of : String → Option String
group_of version = some version

abbrev test_owner : String → OwnerReference
test_owner group = record {
  api_version = group;
  kind = "SupabaseProject";
  name = "shop";
  uid = "u";
  controller = none;
  block_owner_deletion = none;
}

abbrev two_owners : List OwnerReference
two_owners = test_owner "supabase.guion.dev" ∷ test_owner "other" ∷ []

remove_supabase_project_owner_reference-test :
    remove_supabase_project_owner_reference group_of two_owners "shop"
    ≡ (test_owner "other" ∷ [], true)
unfolding remove_supabase_project_owner_reference filter_owners is_project_owner
remove_supabase_project_owner_reference-test = refl

remove_supabase_project_owner_reference-Removed_example :
    Removed group_of "shop" two_owners
      (remove_supabase_project_owner_reference group_of two_owners "shop").0
    × (((remove_supabase_project_owner_reference group_of two_owners "shop").1 ≡ true)
        ↔ Owned group_of "shop" two_owners)
remove_supabase_project_owner_reference-Removed_example =
    remove_supabase_project_owner_reference-Removed group_of "shop" two_owners (λ e. cc)

abbrev test_container : Container
test_container = record (container_with "auth" "auth:1") {
  ports = http_port (pos 9999);
  liveness_probe = some (build_liveness_probe "/health" (pos 9999));
}

abbrev test_template : PodTemplateSpec
test_template = record {
  labels = [];
  annotations = [];
  spec = record {
    restart_policy = "";
    termination_grace_period_seconds = none;
    dns_policy = "";
    security_context = none;
    scheduler_name = "";
    volumes =
        record {
          name = "v";
          config_map = some (record { source = "c"; default_mode = none });
          secret = none;
          downward_api = none;
          projected = none;
          rest = "";
        }
        ∷ [];
    init_containers = [];
    containers = test_container ∷ [];
    image_pull_secrets = [];
    rest = "";
  };
}

normalize_pod_template_defaults-test :
    (normalize_pod_template_defaults test_template).spec.containers
    ≡ record test_container {
      termination_message_path = "/dev/termination-log";
      termination_message_policy = "File";
      liveness_probe = some (record {
        http_get = some (record { path = "/health"; port = pos 9999; scheme = "HTTP" });
        initial_delay_seconds = pos 10;
        timeout_seconds = pos 5;
        period_seconds = pos 10;
        success_threshold = pos 1;
        failure_threshold = pos 3;
      });
    }
      ∷ []
unfolding normalize_pod_template_defaults normalize_container_defaults normalize_probe_defaults
    build_liveness_probe
normalize_pod_template_defaults-test = refl

abbrev test_deployment : Deployment
test_deployment = record {
  meta = test_metadata;
  replicas = some (pos 2);
  selector = [];
  template = test_template;
  strategy = record { type = ""; rolling_update = none };
  status = record {
    observed_generation = pos 1;
    updated_replicas = pos 2;
    ready_replicas = pos 2;
    available_replicas = pos 2;
    unavailable_replicas = pos 0;
  };
}

ready-test : deployment_is_ready test_deployment ≡ true
unfolding deployment_is_ready
ready-test = refl

abbrev test_cluster_status : ClusterStatus
test_cluster_status = record {
  ready_instances = pos 2;
  phase = "";
  current_primary = "";
  cannot_reconcile = [];
  roles_by_status = ("reconciled", "powersync_replication" ∷ "powersync_storage" ∷ []) ∷ [];
}

abbrev test_reconciled : List String
test_reconciled = "powersync_replication" ∷ "powersync_storage" ∷ []

power_sync_managed_roles_ready_iff_example :
    (power_sync_managed_roles_ready test_cluster_status ≡ ok true) ↔ (
      (elements "powersync_storage" [] ≡ [])
      × (elements "powersync_replication" [] ≡ [])
      × Member "powersync_storage" test_reconciled
      × Member "powersync_replication" test_reconciled)
unfolding lookup
power_sync_managed_roles_ready_iff_example = power_sync_managed_roles_ready_iff test_cluster_status

abbrev test_request : NamespacedName
test_request = record { name = "shop"; namespace = "prod" }

map_project_credentials_secret_to_projects_iff_example :
    Member test_request
      (map_project_credentials_secret_to_projects (test_project ∷ []) "credentials")
    ↔ Woken "credentials" test_request (test_project ∷ [])
map_project_credentials_secret_to_projects_iff_example =
    map_project_credentials_secret_to_projects_iff (test_project ∷ []) "credentials" test_request
