-- ===== src/Tests/Objects.antt =====
-- A project with backups and PowerSync, as test data.
use cloudnative_supabase.Prelude.{true, false, none, some, List, [], ◌∷◌, pos, codes}
use cloudnative_supabase.Kube.Meta.{Bytes, ObjectMeta}
use cloudnative_supabase.Kube.Core.{ResourceRequirements}
use cloudnative_supabase.Kube.Cnpg.{StorageConfiguration}
use cloudnative_supabase.Api.Database.{DatabaseSpec, BackupSpec, RecoverySpec}
use cloudnative_supabase.Api.Auth.{AuthSpec, GoTrueEnvVar}
use cloudnative_supabase.Api.Spec.{SupabaseProjectSpec, PowersyncSpec}
use cloudnative_supabase.Api.Status.{SupabaseProjectStatus, ServiceStatus, SecretNamesStatus}
use cloudnative_supabase.Api.Project.{SupabaseProject}

abbrev pub no_resources : ResourceRequirements
no_resources = record { requests = none; limits = none }

abbrev pub test_storage : StorageConfiguration
test_storage = record {
  storage_class = none;
  size = "10";
  resize_in_use_volumes = none;
  persistent_volume_claim_template = none;
}

abbrev pub test_backup : BackupSpec
test_backup = record {
  enabled = true;
  schedule = "";
  retention_policy = "7d";
  s3_config = record {
    destination_path = "s3://backups";
    endpoint_url = "https://s3";
    s3_credentials_secret = "s3";
  };
  wal_compression = "";
  data_compression = "bzip2";
}

abbrev pub test_recovery : RecoverySpec
test_recovery = record {
  enabled = true;
  server_name = "old-pg";
  target_time = "";
  s3_config = record {
    destination_path = "s3://old";
    endpoint_url = "https://s3";
    s3_credentials_secret = "s3";
  };
}

abbrev pub test_database : DatabaseSpec
test_database = record {
  instances = pos 2;
  storage = test_storage;
  image = "";
  resources = no_resources;
  enable_superuser_access = false;
  parameters = ("wal_level", "replica") ∷ [];
  additional_preload_libraries = [];
  additional_extensions = [];
  backup = some test_backup;
  recovery = some test_recovery;
  additional_roles = [];
}

abbrev pub test_go_true_env : List GoTrueEnvVar
test_go_true_env =
    record { name = "GOTRUE_JWT_SECRET"; value = some (codes "mine"); value_from = none }
    ∷ record { name = "GOTRUE_MAILER_OTP_EXP"; value = some (codes "60"); value_from = none }
    ∷ []

abbrev pub test_auth : AuthSpec
test_auth = record {
  image_tag = "";
  replicas = pos 1;
  site_url = codes "https://site";
  external_url = codes "https://api/";
  access_token_expiration_seconds = pos 0;
  disable_signup = false;
  enable_anonymous_users = false;
  auto_confirm_email = false;
  go_true_env = test_go_true_env;
  providers = none;
  email_hook = none;
  smtp = none;
  resources = no_resources;
}

abbrev pub test_schemas : List Bytes
test_schemas = codes "public" ∷ codes "app_1" ∷ []

abbrev pub test_powersync : PowersyncSpec
test_powersync = record {
  publication_schemas = some test_schemas;
  image = record { registry = ""; repository = ""; tag = ""; pull_policy = "" };
  api = record { replicas = pos 1; resources = no_resources; node_options = "" };
  replication = record { resources = no_resources; node_options = "" };
  sync_rules = record { inline = []; config_map_ref = "rules" };
  compact = record { enabled = false; schedule = ""; resources = no_resources };
}

abbrev pub test_spec : SupabaseProjectSpec
test_spec = record {
  database = test_database;
  project_credentials_secret = "credentials";
  auth = test_auth;
  rest = record { image_tag = ""; replicas = pos 1; schemas = []; resources = no_resources };
  studio = record {
    image_tag = "";
    replicas = pos 1;
    public_url = "";
    organization_name = "";
    project_name = "";
    resources = no_resources;
  };
  meta = record { image_tag = ""; replicas = pos 1; resources = no_resources };
  gateway = record { image_tag = ""; replicas = pos 1; resources = no_resources };
  powersync = some test_powersync;
  image_pull_secrets = [];
}

abbrev pub test_secret_names : SecretNamesStatus
test_secret_names = record {
  go_true_fallback = "";
  supabase_admin = "admin";
  authenticator = "authenticator";
  auth_admin = "auth-admin";
  email_hook = "";
  powersync_storage_password = "storage";
  powersync_replication_password = "replication";
}

abbrev pub not_ready : ServiceStatus
not_ready = record { ready = false; available_replicas = pos 0 }

abbrev pub test_status : SupabaseProjectStatus
test_status = record {
  phase = "";
  conditions = [];
  database = record { ready = false; phase = ""; ready_instances = pos 0; primary_host = "" };
  services = record {
    auth = not_ready;
    rest = not_ready;
    studio = not_ready;
    meta = not_ready;
    gateway = not_ready;
    powersync_api = not_ready;
    powersync_replication = not_ready;
  };
  secret_names = test_secret_names;
  endpoints = record { api = ""; database = "" };
  observed_generation = pos 0;
}

abbrev pub test_metadata : ObjectMeta
test_metadata = record {
  name = "shop";
  namespace = "prod";
  labels = [];
  annotations = [];
  owner_references = [];
  uid = "u";
  generation = pos 1;
}

abbrev pub test_project : SupabaseProject
test_project = record { metadata = test_metadata; spec = test_spec; status = test_status }
