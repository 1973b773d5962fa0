-- ===== src/Controller/Sources.antt =====
-- `validateGoTrueEnvSources` and its parts, of internal/controller/supabaseproject_controller.go
use cloudnative_supabase.Prelude.{
  String, ◌<>◌, ◌==◌, Bool, false, ◌||◌, ◌&&◌, Option, none, some, is_some, List, [], ◌∷◌, Result,
  ok, err, errorf, wrap, map_err, ◌>>◌, if◌then◌else◌,
}
use cloudnative_supabase.Prelude.Maps.{lookup}
use cloudnative_supabase.Kube.Meta.{Bytes, NamespacedName}
use cloudnative_supabase.Kube.Core.{Secret, ConfigMap}
use cloudnative_supabase.Api.Auth.{GoTrueEnvVar, GoTrueEnvValueFrom, GoTrueEnvKeySelector}
use cloudnative_supabase.Deployments.GoTrueEnv.{is_operator_owned_go_true_env}
use cloudnative_supabase.Controller.Effects.{Client}

-- `ref.Optional != nil && *ref.Optional`
unfoldable pub is_optional : Option Bool → Bool
is_optional none = false
is_optional (some optional) = optional

-- What the object says of the key: its presence, or the error of reading it.
unfoldable pub check_key : String → GoTrueEnvKeySelector → Result Bool → Result (Unit {0})
unfolding is_optional
check_key kind ref (err e) =
    if is_optional ref.optional && e.is_not_found
    then ok tt
    else err (wrap ("getting " <> kind <> " \"" <> ref.name <> "\"") e)
check_key kind ref (ok exists) =
    if exists || is_optional ref.optional
    then ok tt
    else err (errorf (kind <> " \"" <> ref.name <> "\" is missing key \"" <> ref.key <> "\""))

abbrev pub secret_has_key : String → Result Secret → Result Bool
secret_has_key key (err e) = err e
secret_has_key key (ok secret) =
    ok (is_some (lookup key secret.data_) || is_some (lookup key secret.string_data))

abbrev pub config_map_has_key : String → Result ConfigMap → Result Bool
config_map_has_key key (err e) = err e
config_map_has_key key (ok config_map) = ok (is_some (lookup key config_map.data_))

abbrev variable_text : String → String
variable_text name = "GoTrue environment variable \"" <> name <> "\""

-- The steps only read: they are functions of the server's state.
module _ {W : Type 0} (client : Client W) (namespace : String) (world : W) where
  abbrev pub ref_key : GoTrueEnvKeySelector → NamespacedName
  ref_key ref = record { name = ref.name; namespace = namespace }

  unfoldable pub validate_go_true_env_secret_key : GoTrueEnvKeySelector → Result (Unit {0})
  unfolding check_key
  validate_go_true_env_secret_key ref =
      if ref.name == "" || ref.key == ""
      then err (errorf "secret reference must include a name and key")
      else check_key "secret" ref (secret_has_key ref.key (client.secrets.get (ref_key ref) world))

  unfoldable pub validate_go_true_env_config_map_key : GoTrueEnvKeySelector → Result (Unit {0})
  unfolding check_key
  validate_go_true_env_config_map_key ref =
      if ref.name == "" || ref.key == ""
      then err (errorf "config map reference must include a name and key")
      else check_key "config map" ref
          (config_map_has_key ref.key (client.config_maps.get (ref_key ref) world))

  -- The one reference of the two that is given.
  unfoldable pub validate_refs :
      String → Option GoTrueEnvKeySelector → Option GoTrueEnvKeySelector → Result (Unit {0})
  unfolding validate_go_true_env_secret_key validate_go_true_env_config_map_key
  validate_refs name (some ref) none =
      map_err (wrap (variable_text name)) (validate_go_true_env_secret_key ref)
  validate_refs name none (some ref) =
      map_err (wrap (variable_text name)) (validate_go_true_env_config_map_key ref)
  validate_refs name _ _ =
      err (errorf (variable_text name <> " must select exactly one Secret or ConfigMap key"))

  unfoldable pub validate_value :
      String → Option Bytes → Option GoTrueEnvValueFrom → Result (Unit {0})
  unfolding validate_refs
  validate_value name (some value) _ = ok tt
  validate_value name none none =
      err (errorf (variable_text name <> " must select exactly one Secret or ConfigMap key"))
  validate_value name none (some from) =
      validate_refs name from.secret_key_ref from.config_map_key_ref

  -- One round of the loop.
  unfoldable pub validate_variable : GoTrueEnvVar → Result (Unit {0})
  unfolding validate_value
  validate_variable configured =
      if is_operator_owned_go_true_env configured.name
      then err (errorf (variable_text configured.name <> " is operator-owned"))
      else validate_value configured.name configured.value configured.value_from

  unfoldable pub validate_go_true_env_sources : List GoTrueEnvVar → Result (Unit {0})
  unfolding validate_variable
  validate_go_true_env_sources [] = ok tt
  validate_go_true_env_sources (configured ∷ more) =
      validate_variable configured >> validate_go_true_env_sources more
