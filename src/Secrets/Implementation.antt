-- ===== src/Secrets/Implementation.antt =====
-- internal/resources/secrets/secrets.go: validation of the operator's own Secrets.
pub mod Laws
use cloudnative_supabase.Prelude.{
  String, Bool, false, not, Option, none, some, is_some, List, [], ◌∷◌, Result, ok, err, errorf,
  require, map_err, ◌>>=◌, ◌>>◌, length, drop, ◌=ℕ=◌, has_prefix, codes, ◌&&◌,
}
use cloudnative_supabase.Kube.Meta.{Bytes}
use cloudnative_supabase.Kube.Core.{Secret}
use cloudnative_supabase.Crypto.Jwk.{empty}
use cloudnative_supabase.Crypto.Library.{Library}
use cloudnative_supabase.Secrets.Credentials.{secret_value}

abbrev pub webhook_prefix : Bytes
webhook_prefix = codes "v1,whsec_"

-- The tests of a value. The trimmed value is read only if it has the prefix.
abbrev check_webhook : Library → Option Bytes → Result (Unit {0})
check_webhook lib none = err (errorf "email hook Secret must contain a Standard Webhooks value")
check_webhook lib (some value) = do
  require (has_prefix value webhook_prefix)
      "email hook Secret must contain a Standard Webhooks value"
  payload ←
      map_err (λ _. errorf "email hook Secret contains an invalid Standard Webhooks value")
        (lib.std_decode (drop (length webhook_prefix) value))
  require (length payload =ℕ= 32) "email hook Secret contains an invalid Standard Webhooks value"

unfoldable pub validate_email_hook_secret : Library → Option Secret → Result (Unit {0})
validate_email_hook_secret lib none = err (errorf "email hook Secret is nil")
validate_email_hook_secret lib (some secret) = check_webhook lib (secret_value secret "secret")

unfoldable pub validate_role_secret : Option Secret → Result (Unit {0})
validate_role_secret none = err (errorf "role Secret is nil")
validate_role_secret (some secret) = do
  require (is_some (secret_value secret "username"))
      "role Secret is missing required key \"username\""
  require (is_some (secret_value secret "password"))
      "role Secret is missing required key \"password\""

abbrev token_present : (Bytes → Bytes) → Option Bytes → Bool
token_present trim_space none = false
token_present trim_space (some value) = not (empty (trim_space value))

-- `trim_space` is `strings.TrimSpace`.
unfoldable pub validate_powersync_api_token_secret :
    (Bytes → Bytes) → Option Secret → Result (Unit {0})
validate_powersync_api_token_secret trim_space none =
    err (errorf "PowerSync API token Secret is nil")
validate_powersync_api_token_secret trim_space (some secret) =
    require (token_present trim_space (secret_value secret "token"))
      "PowerSync API token Secret is missing required non-empty key \"token\""
