-- ===== src/Cnpg/Roles.antt =====
-- internal/resources/cnpg/cluster.go: the managed roles.
pub mod Laws
use cloudnative_supabase.Prelude.{
  String, ◌==◌, Bool, true, false, ◌&&◌, not, is_some, Option, none, some, List, [], ◌∷◌, ◌++◌, pos,
  negsuc, if◌then◌else◌,
}
use cloudnative_supabase.Kube.Core.{LocalObjectReference}
use cloudnative_supabase.Kube.Cnpg.{RoleConfiguration}
use cloudnative_supabase.Api.Database.{DatabaseSpec}
use cloudnative_supabase.Api.Status.{SecretNamesStatus}
use cloudnative_supabase.Api.Project.{SupabaseProject}

-- `cnpgv1.RoleConfiguration{Name: name, Ensure: cnpgv1.EnsurePresent, Comment: comment}`
abbrev present_role : String → String → RoleConfiguration
present_role name comment = record {
  name = name;
  comment = comment;
  ensure = "present";
  password_secret = none;
  connection_limit = pos 0;
  valid_until = none;
  in_roles = [];
  inherit = none;
  disable_password = false;
  superuser = false;
  create_db = false;
  create_role = false;
  login = false;
  replication = false;
  bypass_rls = false;
}

abbrev password_of : String → Option LocalObjectReference
password_of name = some (record { name = name })

abbrev generated_role : RoleConfiguration → RoleConfiguration
generated_role role = record role {
  connection_limit = negsuc 0;
  inherit = if is_some role.inherit then role.inherit else some true;
}

unfoldable pub apply_generated_role_defaults : List RoleConfiguration → List RoleConfiguration
apply_generated_role_defaults [] = []
apply_generated_role_defaults (role ∷ roles) =
    generated_role role ∷ apply_generated_role_defaults roles

unfoldable pub base_roles : SecretNamesStatus → List RoleConfiguration
base_roles secret_names =
    present_role "api_access_role" "Group role for API access permissions"
    ∷ record (present_role "anon" "Anonymous role for unauthenticated API access") {
      inherit = some true;
      in_roles = "api_access_role" ∷ [];
    }
    ∷ record (present_role "authenticated" "Role for authenticated API users") {
      inherit = some true;
      in_roles = "api_access_role" ∷ [];
    }
    ∷ record (present_role "service_role" "Service role with RLS bypass for backend operations") {
      inherit = some true;
      bypass_rls = true;
      in_roles = "api_access_role" ∷ [];
    }
    ∷ record (present_role "supabase_admin" "Database owner and admin role") {
      login = true;
      create_db = true;
      create_role = true;
      bypass_rls = true;
      replication = true;
      password_secret = password_of secret_names.supabase_admin;
      in_roles = "pg_read_all_data" ∷ "pg_write_all_data" ∷ [];
    }
    ∷ record (present_role "authenticator" "PostgREST role switcher") {
      login = true;
      inherit = some false;
      password_secret = password_of secret_names.authenticator;
      in_roles = "anon" ∷ "authenticated" ∷ "service_role" ∷ [];
    }
    ∷ record (present_role "supabase_auth_admin" "GoTrue auth service admin role") {
      login = true;
      inherit = some false;
      create_role = true;
      password_secret = password_of secret_names.auth_admin;
    }
    ∷ []

unfoldable pub build_roles : DatabaseSpec → SecretNamesStatus → List RoleConfiguration
unfolding base_roles apply_generated_role_defaults
build_roles spec secret_names =
    apply_generated_role_defaults (base_roles secret_names) ++ spec.additional_roles

unfoldable pub build_powersync_roles : SecretNamesStatus → List RoleConfiguration
unfolding apply_generated_role_defaults
build_powersync_roles secret_names = apply_generated_role_defaults (
    record (present_role "powersync_storage" "Powersync internal storage role") {
      login = true;
      password_secret = password_of secret_names.powersync_storage_password;
    }
    ∷ record (present_role "powersync_replication" "Powersync CDC replication role") {
      login = true;
      replication = true;
      bypass_rls = true;
      password_secret = password_of secret_names.powersync_replication_password;
    }
    ∷ [])

unfoldable pub build_all_roles : SupabaseProject → SecretNamesStatus → List RoleConfiguration
unfolding build_roles build_powersync_roles
build_all_roles project secret_names =
    let roles = build_roles project.spec.database secret_names in
    if is_some project.spec.powersync
      && (not (secret_names.powersync_storage_password == "")
          && not (secret_names.powersync_replication_password == ""))
    then roles ++ build_powersync_roles secret_names
    else roles
