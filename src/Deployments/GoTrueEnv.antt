-- ===== src/Deployments/GoTrueEnv.antt =====
-- internal/resources/deployments/auth.go: the user's GoTrue settings, laid over the operator's.
pub mod Laws
use cloudnative_supabase.Prelude.{
  ℕ, zero, suc, ◌+◌, String, ◌==◌, Bool, true, false, ◌||◌, Option, none, some, List, [], ◌∷◌, ◌++◌,
  Map, length, if◌then◌else◌,
}
use cloudnative_supabase.Prelude.Maps.{lookup, insert}
use cloudnative_supabase.Kube.Meta.{Bytes}
use cloudnative_supabase.Kube.Core.{KeySelector, EnvVarSource, EnvVar}
use cloudnative_supabase.Api.Auth.{GoTrueEnvKeySelector, GoTrueEnvValueFrom, GoTrueEnvVar}

abbrev pub operator_owned_go_true_env_names : List String
operator_owned_go_true_env_names =
    "GOTRUE_JWT_KEYS" ∷ "GOTRUE_JWT_SECRET" ∷ "GOTRUE_JWT_ALG" ∷ "GOTRUE_JWT_KEY_ID"
    ∷ "GOTRUE_JWT_ISSUER" ∷ "GOTRUE_JWT_AUD" ∷ "GOTRUE_JWT_EXP" ∷ "GOTRUE_JWT_VALID_METHODS"
    ∷ "GOTRUE_JWT_ALLOWED_ALGS" ∷ "GOTRUE_JWT_ADMIN_ROLES" ∷ "GOTRUE_JWT_ADMIN_GROUP_NAME"
    ∷ "GOTRUE_JWT_DEFAULT_GROUP_NAME" ∷ "GOTRUE_JWT_ROLE_CLAIM" ∷ []

listed : String → List String → Bool
listed name [] = false
listed name (n ∷ names) = n == name || listed name names

unfoldable pub is_operator_owned_go_true_env : String → Bool
unfolding listed
is_operator_owned_go_true_env name = listed name operator_owned_go_true_env_names

-- `goTrueEnvSecretKeyRef` and `goTrueEnvConfigMapKeyRef`: nil stays nil.
unfoldable pub go_true_env_key_ref : Option GoTrueEnvKeySelector → Option KeySelector
go_true_env_key_ref none = none
go_true_env_key_ref (some ref) =
    some (record { name = ref.name; key = ref.key; optional = ref.optional })

unfoldable pub env_var_source : Option GoTrueEnvValueFrom → Option EnvVarSource
unfolding go_true_env_key_ref
env_var_source none = none
env_var_source (some value_from) = some (record {
  secret_key_ref = go_true_env_key_ref value_from.secret_key_ref;
  config_map_key_ref = go_true_env_key_ref value_from.config_map_key_ref;
})

-- The variable that the loop makes of a configured one: a value hides a source.
literal_or_source : String → Option Bytes → Option GoTrueEnvValueFrom → EnvVar
literal_or_source name (some value) _ = record { name = name; value = value; value_from = none }
literal_or_source name none value_from = record {
  name = name;
  value = [];
  value_from = env_var_source value_from;
}

unfoldable pub env_var : GoTrueEnvVar → EnvVar
unfolding literal_or_source env_var_source
env_var configured = literal_or_source configured.name configured.value configured.value_from

-- `env[index] = variable`
unfoldable pub set : List EnvVar → ℕ → EnvVar → List EnvVar
set [] i v = []
set (w ∷ ws) zero v = v ∷ ws
set (w ∷ ws) (suc i) v = w ∷ set ws i v

-- `indexes[variable.Name] = index`, from `index` on.
unfoldable pub index_env : ℕ → List EnvVar → Map ℕ → Map ℕ
index_env index [] indexes = indexes
index_env index (variable ∷ env) indexes =
    index_env (suc index) env (insert variable.name index indexes)

-- One round of the loop, on the list and the positions of its names.
abbrev Indexed : Type 0
Indexed = List EnvVar × Map ℕ

place : EnvVar → Option ℕ → Indexed → Indexed
place variable (some index) (env, indexes) = (set env index variable, indexes)
place variable none (env, indexes) =
    (env ++ variable ∷ [], insert variable.name (length env) indexes)

apply_one : GoTrueEnvVar → Indexed → Indexed
apply_one configured state =
    if is_operator_owned_go_true_env configured.name
    then state
    else place (env_var configured) (lookup configured.name state.1) state

apply_all : List GoTrueEnvVar → Indexed → Indexed
apply_all [] state = state
apply_all (configured ∷ rest) state = apply_all rest (apply_one configured state)

unfoldable pub apply_go_true_env : List EnvVar → List GoTrueEnvVar → List EnvVar
unfolding apply_all apply_one place env_var set index_env insert lookup
    is_operator_owned_go_true_env
apply_go_true_env env configured = (apply_all configured (env, index_env 0 env [])).0
