-- ===== src/Tests/Runs.antt =====
-- Whole steps of the reconciler on the test server.
use cloudnative_supabase.Controller.Components.{apply_project_credentials_hash}
use cloudnative_supabase.Crypto.Decimal.{hex}
use cloudnative_supabase.Controller.Powersync.{
  delete_power_sync_owned_resource, power_sync_status_needs_cleanup,
}
use cloudnative_supabase.Controller.Recovery.{
  recovery_changed, recovery_bootstrap, init_db_changed, source_changed, recovery_external_cluster,
  recovery_source_name,
}
use cloudnative_supabase.Common.Names.{init_sql_config_map_name}
use cloudnative_supabase.Controller.Fields.{
  replace_image, replace_roles, managed_or_new, keep_unchanged,
}
use cloudnative_supabase.Cnpg.Parameters.{merge_parameters, default_parameters}
use cloudnative_supabase.Controller.Plugins.{
  reconcile_barman_plugin, append_missing, barman_plugin, walk,
}
use cloudnative_supabase.Prelude.{◌≡◌, refl, ok, pos, ℕ, ap}
use cloudnative_supabase.Controller.State.{State, proceed}
use cloudnative_supabase.Controller.Reconcile.{Reconciler, initial}
use cloudnative_supabase.Controller.Reconcile.Laws.{IsRunning, phases-IsRunning}
use cloudnative_supabase.Tests.Operator.{test_reconciler, test_machinery, plain_project}
use cloudnative_supabase.Controller.Reconcile.{phases, follow, complete, mark_running}
use cloudnative_supabase.Prelude.Effects.{◌>>=◌, ◌>>◌, lift, done, rescue, attempt}
use cloudnative_supabase.Controller.Effects.{own, create_or}
use cloudnative_supabase.Controller.State.{
  on_world, with_project, for_project, modify_status, set_condition, with_condition,
  update_project_status,
}
use cloudnative_supabase.Controller.Durable.{
  protect, release_owner, reconcile_durable_metadata_protection, validate_recovery_bootstrap_intent,
  validate_existing_cluster,
}
use cloudnative_supabase.Prelude.Maps.{lookup, insert}
use cloudnative_supabase.Cnpg.Cluster.{build_cluster}
use cloudnative_supabase.Api.Project.{component_labels, common_labels, selector_labels}
use cloudnative_supabase.Controller.Ownership.{
  remove_supabase_project_owner_reference, filter_owners, is_project_owner, merge_labels, set_label,
}
use cloudnative_supabase.Controller.ProjectSecrets.{
  reconcile_secrets, read_credentials, reconcile_init_sql, reconcile_jwks_config_map,
  build_jwks_config_map,
}
use cloudnative_supabase.Controller.Credentials.{
  reconcile_implementation_secrets, apply_secrets, reconcile_email_hook_secret,
}
use cloudnative_supabase.Secrets.Generation.{
  generate_secrets, generate_role_secret, generate_go_true_fallback_secret,
}
use cloudnative_supabase.Crypto.Random.{generate_hex, read_bytes, generate_password}
use cloudnative_supabase.Controller.Apply.Secrets.{
  create_or_update_secret, adopt_secret, create_or_update_config_map, adopt_config_map,
  refresh_config_map, create_or_update_service, refresh_service,
}
use cloudnative_supabase.Controller.Recovery.{recovery_bootstrap_intent_changed}
use cloudnative_supabase.Controller.Backup.{
  reconcile_backup_infrastructure, reconcile_backup, reconcile_recovery, cleanup_backup_resources,
  cleanup_recovery_resources,
}
use cloudnative_supabase.Controller.Database.{
  reconcile_cnpg_cluster, adopt_cluster, update_cluster, repair_metadata, apply_fields,
  wait_for_database, check_database,
}
use cloudnative_supabase.Controller.Fields.{reconcile_cluster_mutable_fields, assign_fields}
use cloudnative_supabase.Controller.Storage.{
  reconcile_storage, reconcile_size, check_shrink, settle,
}
use cloudnative_supabase.Controller.Semantic.{replace, replace_set}
use cloudnative_supabase.Controller.CoreServices.{
  reconcile_services, reconcile_auth, reconcile_rest, reconcile_studio, reconcile_meta,
  reconcile_gateway, build_auth_deployment, report_pending,
}
use cloudnative_supabase.Controller.Components.{
  reconcile_service_component, deployment_status, report_component,
}
use cloudnative_supabase.Controller.Apply.Workloads.{
  create_or_update_deployment, refresh_deployment,
}
use cloudnative_supabase.Controller.Readiness.{deployment_is_ready, core_services_ready}
use cloudnative_supabase.Controller.Sources.{validate_go_true_env_sources}
use cloudnative_supabase.Controller.Powersync.{cleanup_power_sync, delete_runtime}
use cloudnative_supabase.Secrets.Credentials.{
  validate_project_credentials, validate_secret, check_data, check_string_data, is_member,
  required_value, secret_value,
}
use cloudnative_supabase.Crypto.Jwk.{
  parse_signing_jwk, parse_jwk_array, validate_signing_jwk, contains, ecdsa_private_key,
  decode_coordinate, decode_base64_url,
}
use cloudnative_supabase.Crypto.PublicKey.{public_jwks, public_jwk}
use cloudnative_supabase.Secrets.OpaqueKey.{validate_opaque_key, expected_checksum}
use cloudnative_supabase.Prelude.{has_prefix, bytes_eq}
use cloudnative_supabase.Crypto.Base64.{is_base64_url_character, raw_url_encode, digit}
use cloudnative_supabase.Crypto.Jwt.{
  verify_es256_jwt, verify_with_public_key, split_dots, audience_matches,
}
use cloudnative_supabase.Tests.Base64.{decode}
use cloudnative_supabase.Crypto.BigInt.{set_bytes}
use cloudnative_supabase.Common.Names.{go_true_fallback_secret_name, cluster_name}

abbrev r : Reconciler ℕ ℕ
r = test_reconciler

abbrev start : State ℕ
start = initial test_reconciler plain_project 0

result-test : (phases r (pos 5) (pos 6) start).0 ≡ ok proceed
unfolding phases ◌>>=◌ ◌>>◌ lift done rescue attempt own create_or on_world with_project for_project
    modify_status set_condition with_condition update_project_status protect release_owner
    reconcile_durable_metadata_protection lookup insert build_cluster component_labels common_labels
    selector_labels remove_supabase_project_owner_reference filter_owners is_project_owner
    reconcile_secrets read_credentials reconcile_implementation_secrets generate_secrets
    generate_role_secret generate_go_true_fallback_secret generate_hex read_bytes generate_password
    create_or_update_secret adopt_secret apply_secrets reconcile_email_hook_secret
    validate_recovery_bootstrap_intent validate_existing_cluster recovery_bootstrap_intent_changed
    reconcile_init_sql create_or_update_config_map adopt_config_map refresh_config_map merge_labels
    set_label reconcile_jwks_config_map build_jwks_config_map reconcile_backup_infrastructure
    reconcile_backup reconcile_recovery cleanup_backup_resources cleanup_recovery_resources
    reconcile_cnpg_cluster adopt_cluster update_cluster repair_metadata apply_fields
    reconcile_cluster_mutable_fields assign_fields reconcile_storage reconcile_size check_shrink
    settle replace replace_set wait_for_database check_database reconcile_services reconcile_auth
    reconcile_rest reconcile_studio reconcile_meta reconcile_gateway build_auth_deployment
    reconcile_service_component create_or_update_deployment refresh_deployment
    create_or_update_service refresh_service deployment_status deployment_is_ready report_component
    report_pending core_services_ready validate_go_true_env_sources follow cleanup_power_sync
    delete_runtime complete mark_running validate_project_credentials validate_secret check_data
    check_string_data is_member required_value secret_value parse_signing_jwk parse_jwk_array
    public_jwks public_jwk validate_opaque_key has_prefix is_base64_url_character bytes_eq
    expected_checksum raw_url_encode digit verify_es256_jwt validate_signing_jwk contains
    ecdsa_private_key decode_coordinate decode_base64_url decode set_bytes verify_with_public_key
    split_dots audience_matches go_true_fallback_secret_name cluster_name recovery_changed
    recovery_bootstrap init_db_changed init_sql_config_map_name source_changed
    recovery_external_cluster recovery_source_name replace_image merge_parameters default_parameters
    replace_roles managed_or_new keep_unchanged reconcile_barman_plugin append_missing barman_plugin
    walk apply_project_credentials_hash hex delete_power_sync_owned_resource
    power_sync_status_needs_cleanup
result-test = refl

abbrev finish : State ℕ
finish = (phases r (pos 5) (pos 6) start).1

phases-IsRunning_example : IsRunning test_machinery finish.project
phases-IsRunning_example =
    phases-IsRunning r (pos 5) (pos 6) start finish (ap (λ result. (result, finish)) result-test)
