-- ===== src/Tests/Operator.antt =====
-- A server that answers every read with an object that is as it is wanted, and counts the writes.
use cloudnative_supabase.Prelude.{
  ℕ, zero, suc, String, Bool, true, Option, none, some, List, [], ◌∷◌, ok, err, pos,
}
use cloudnative_supabase.Kube.Meta.{Bytes, ObjectMeta, Condition}
use cloudnative_supabase.Kube.Core.{ConfigMap, Deployment, Service, Job, CronJob, PodTemplateSpec}
use cloudnative_supabase.Kube.Cnpg.{Cluster}
use cloudnative_supabase.Api.Status.{SecretNamesStatus}
use cloudnative_supabase.Api.Project.{SupabaseProject}
use cloudnative_supabase.Crypto.Random.{RandomSource}
use cloudnative_supabase.Cnpg.Cluster.{build_cluster}
use cloudnative_supabase.Controller.Effects.{Resource, Client, Machinery, Equality}
use cloudnative_supabase.Controller.Builders.{Builders}
use cloudnative_supabase.Controller.Reconcile.{Reconciler}
use cloudnative_supabase.Tests.Objects.{
  test_project, test_metadata, test_spec, test_database, test_auth,
}
use cloudnative_supabase.Tests.Keys.{test_library}
use cloudnative_supabase.Tests.Bundle.{bundle_with}
use cloudnative_supabase.Tests.Semantics.{test_semantic, test_quantities}

-- A project with neither backups nor PowerSync.
abbrev pub plain_project : SupabaseProject
plain_project = record test_project {
  spec = record test_spec {
    database = record test_database { backup = none; recovery = none };
    powersync = none;
    auth = record test_auth { go_true_env = [] };
  };
}

abbrev pub same : {A : Type 0} → A → A → Bool
same a b = true

abbrev pub test_equality : Equality
test_equality = record {
  owners = same;
  data_ = same;
  selector = same;
  replicas = same;
  template = same;
  strategy = same;
  ports = same;
  cron_spec = same;
  credentials = same;
  wal = same;
  data_backup = same;
  cluster = same;
  plugin = same;
  publication = same;
  service_status = same;
  status = same;
}

abbrev find_condition : String → List Condition → Option Condition
find_condition type [] = none
find_condition type (condition ∷ conditions) = none

abbrev pub test_machinery : Machinery
test_machinery = record {
  equal = test_equality;
  set_controller_reference = λ project key owners. ok owners;
  is_controlled_by = λ owners project. true;
  parse_group = λ version. some version;
  set_status_condition = λ condition conditions. condition ∷ [];
  find_status_condition = find_condition;
  remove_status_condition = λ type conditions. conditions;
  default_cluster = λ cluster. cluster;
  decimal_text = λ z. "";
}

-- Every name has the same object.
abbrev pub everywhere : {A : Type 0} → A → Resource ℕ A
everywhere a = record {
  get = λ key writes. ok a;
  create = λ new writes. (ok tt, suc writes);
  update = λ new writes. (ok tt, suc writes);
  delete = λ old writes. (ok tt, suc writes);
}

abbrev pub labelled_meta : ObjectMeta
labelled_meta = record test_metadata {
  labels = ("app.kubernetes.io/instance", plain_project.name) ∷ [];
}

abbrev pub test_template : PodTemplateSpec
test_template = record {
  labels = [];
  annotations = [];
  spec = record {
    restart_policy = "";
    termination_grace_period_seconds = none;
    dns_policy = "";
    security_context = none;
    scheduler_name = "";
    volumes = [];
    init_containers = [];
    containers = [];
    image_pull_secrets = [];
    rest = "";
  };
}

abbrev pub test_deployment : Deployment
test_deployment = record {
  meta = labelled_meta;
  replicas = none;
  selector = [];
  template = test_template;
  strategy = record { type = ""; rolling_update = none };
  status = record {
    observed_generation = labelled_meta.generation;
    updated_replicas = pos 1;
    ready_replicas = pos 1;
    available_replicas = pos 1;
    unavailable_replicas = pos 0;
  };
}

abbrev pub test_job : Job
test_job = record {
  meta = labelled_meta;
  spec = "";
  conditions =
      record { type = "Suspended"; status = "True"; message = "" }
      ∷ record { type = "Complete"; status = "True"; message = "" }
      ∷ [];
}

abbrev pub test_config_map : ConfigMap
test_config_map = record { meta = labelled_meta; data_ = [] }

-- The names that the generated Secrets of the project have.
abbrev pub plain_names : SecretNamesStatus
plain_names = record {
  go_true_fallback = "shop-gotrue-jwt-secret";
  supabase_admin = "shop-supabase-admin-password";
  authenticator = "shop-authenticator-password";
  auth_admin = "shop-auth-admin-password";
  email_hook = "";
  powersync_storage_password = "";
  powersync_replication_password = "";
}

abbrev pub ready_cluster : Cluster → Cluster
ready_cluster cluster = record cluster {
  status = record cluster.status { ready_instances = pos 2; phase = "healthy" };
}

abbrev pub test_cron_job : CronJob
test_cron_job = record {
  meta = labelled_meta;
  spec = record { schedule = ""; suspend = none; template = test_template; rest = "" };
}

abbrev pub test_service : Service
test_service = record {
  meta = labelled_meta;
  type = "ClusterIP";
  ports = [];
  selector = [];
  rest = "";
}

abbrev pub absent : {A : Type 0} → Resource ℕ A
absent = record {
  get = λ key writes. err (record { is_not_found = true; message = "" });
  create = λ new writes. (ok tt, suc writes);
  update = λ new writes. (ok tt, suc writes);
  delete = λ old writes. (ok tt, suc writes);
}

abbrev pub client_with : Cluster → Client ℕ
client_with cluster = record {
  secrets = everywhere (bundle_with []);
  config_maps = everywhere test_config_map;
  deployments = everywhere test_deployment;
  services = everywhere test_service;
  jobs = everywhere test_job;
  cron_jobs = everywhere test_cron_job;
  clusters = everywhere cluster;
  object_stores = absent;
  scheduled_backups = absent;
  publications = absent;
  get_project = λ key writes. ok plain_project;
  update_status = λ project writes. (ok tt, suc writes);
  delete_in_foreground = λ job writes. (ok tt, suc writes);
}

abbrev pub test_builders : Builders
test_builders = record {
  build_auth_deployment = λ project names. test_deployment;
  build_rest_deployment = λ project names. test_deployment;
  build_studio_deployment = λ project names. test_deployment;
  build_meta_deployment = λ project names. test_deployment;
  build_gateway_deployment = λ project. test_deployment;
  build_powersync_api_deployment = λ project names. test_deployment;
  build_powersync_replication_deployment = λ project names. test_deployment;
  build_powersync_compact_cron_job = λ project names. none;
  build_envoy_config_map = λ project. test_config_map;
  build_init_sql_config_map = λ project. test_config_map;
  build_powersync_config_map = λ project. test_config_map;
  build_cdc_migrations_config_map = λ project. ok test_config_map;
  build_cdc_permissions_job = λ project names. test_job;
}

-- The source fills every buffer with zeros.
abbrev pub repeat : ℕ → Bytes
repeat zero = []
repeat (suc n) = 0 ∷ repeat n

abbrev pub test_source : RandomSource ℕ
test_source = record {
  read = λ n writes. (ok (record { buffer = repeat n; count = n }), writes);
  std_encode = λ bytes. bytes;
  text_of = λ n. "";
}

abbrev pub plain_cluster : Cluster
plain_cluster = ready_cluster (build_cluster plain_project plain_names)

abbrev pub test_reconciler : Reconciler ℕ ℕ
test_reconciler = record {
  client = client_with plain_cluster;
  machinery = test_machinery;
  semantic = test_semantic;
  quantities = test_quantities;
  lib = test_library;
  source = test_source;
  trim_space = λ bytes. bytes;
  unmarshal_rules = λ bytes. ok (record { edition = pos 3; has_streams = true });
  builders = test_builders;
}
