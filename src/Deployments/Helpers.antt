-- ===== src/Deployments/Helpers.antt =====
-- internal/resources/deployments/helpers.go: images, probes, replicas, and the frame of a Deployment
-- that all the packages' builders share.
pub mod Laws
use cloudnative_supabase.Prelude.{
  String, ◌<>◌, ◌==◌, Option, none, some, List, [], ◌∷◌, ℤ, pos, ◌=ℤ=◌, if◌then◌else◌,
}
use cloudnative_supabase.Kube.Core.{
  LocalObjectReference, Probe, ContainerPort, Container, PodSpec, Deployment,
}
use cloudnative_supabase.Api.Spec.{ImageSpec}
use cloudnative_supabase.Api.Project.{
  SupabaseProject, component_labels, selector_labels, reloader_annotations,
}
use cloudnative_supabase.Cnpg.Cluster.{component_meta}
use cloudnative_supabase.Deployments.AuthEnv.{or_default}

unfoldable pub resolve_image : ImageSpec → String → String → String
resolve_image spec default_image default_tag =
    let repository = if spec.repository == "" then default_image else spec.repository in
    let tag = if spec.tag == "" then default_tag else spec.tag in
    let image = repository <> ":" <> tag in
    if spec.registry == "" then image else spec.registry <> "/" <> image

unfoldable pub resolve_pull_policy : ImageSpec → String
resolve_pull_policy spec = if spec.pull_policy == "" then "IfNotPresent" else spec.pull_policy

pub record ProbeConfig : Type 0 where
  pub path : String
  pub port : ℤ
  pub initial_delay_seconds : ℤ
  pub period_seconds : ℤ
  pub timeout_seconds : ℤ

unfoldable pub default_liveness_config : String → ℤ → ProbeConfig
default_liveness_config path port = record {
  path = path;
  port = port;
  initial_delay_seconds = pos 10;
  period_seconds = pos 10;
  timeout_seconds = pos 5;
}

unfoldable pub default_readiness_config : String → ℤ → ProbeConfig
default_readiness_config path port = record {
  path = path;
  port = port;
  initial_delay_seconds = pos 5;
  period_seconds = pos 5;
  timeout_seconds = pos 3;
}

unfoldable pub build_http_probe : ProbeConfig → Probe
build_http_probe config = record {
  http_get = some (record { path = config.path; port = config.port; scheme = "" });
  initial_delay_seconds = config.initial_delay_seconds;
  timeout_seconds = config.timeout_seconds;
  period_seconds = config.period_seconds;
  success_threshold = pos 0;
  failure_threshold = pos 3;
}

unfoldable pub build_liveness_probe : String → ℤ → Probe
unfolding build_http_probe default_liveness_config
build_liveness_probe path port = build_http_probe (default_liveness_config path port)

unfoldable pub build_readiness_probe : String → ℤ → Probe
unfolding build_http_probe default_readiness_config
build_readiness_probe path port = build_http_probe (default_readiness_config path port)

unfoldable pub normalize_replicas : ℤ → ℤ
normalize_replicas replicas = if replicas =ℤ= pos 0 then pos 1 else replicas

pull_secrets : List LocalObjectReference → List LocalObjectReference → List LocalObjectReference
pull_secrets [] own = own
pull_secrets (secret ∷ secrets) own = secret ∷ secrets

unfoldable pub add_image_pull_secrets : PodSpec → SupabaseProject → PodSpec
unfolding pull_secrets
add_image_pull_secrets pod_spec project = record pod_spec {
  image_pull_secrets = pull_secrets project.spec.image_pull_secrets pod_spec.image_pull_secrets;
}

-- `[]corev1.ContainerPort{{Name: "http", ContainerPort: port, Protocol: corev1.ProtocolTCP}}`
abbrev pub http_port : ℤ → List ContainerPort
http_port port = record { name = "http"; container_port = port; protocol = "TCP" } ∷ []

-- `corev1.Container{Name: name, Image: image, ImagePullPolicy: corev1.PullIfNotPresent}`
abbrev pub container_with : String → String → Container
container_with name image = record {
  name = name;
  image = image;
  image_pull_policy = "IfNotPresent";
  command = [];
  args = [];
  env = [];
  env_from = [];
  resources = record { requests = none; limits = none };
  ports = [];
  liveness_probe = none;
  readiness_probe = none;
  startup_probe = none;
  termination_message_path = "";
  termination_message_policy = "";
  rest = "";
}

-- `corev1.PodSpec{InitContainers: first, Containers: containers}`
abbrev pub pod_with : List Container → List Container → PodSpec
pod_with first containers = record {
  restart_policy = "";
  termination_grace_period_seconds = none;
  dns_policy = "";
  security_context = none;
  scheduler_name = "";
  volumes = [];
  init_containers = first;
  containers = containers;
  image_pull_secrets = [];
  rest = "";
}

-- The Deployment of a component: its labels, its selector, its replicas, and the pods' template.
abbrev pub deployment_with : SupabaseProject → String → String → ℤ → PodSpec → Deployment
deployment_with project name component replicas spec = record {
  meta = record (component_meta project name component) { annotations = reloader_annotations };
  replicas = some replicas;
  selector = selector_labels project component;
  template = record {
    labels = component_labels project component;
    annotations = reloader_annotations;
    spec = spec;
  };
  strategy = record { type = ""; rolling_update = none };
  status = record {
    observed_generation = pos 0;
    updated_replicas = pos 0;
    ready_replicas = pos 0;
    available_replicas = pos 0;
    unavailable_replicas = pos 0;
  };
}
