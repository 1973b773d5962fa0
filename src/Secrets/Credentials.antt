-- ===== src/Secrets/Credentials.antt =====
-- internal/resources/secrets/secrets.go: validation of the external credential bundle.
pub mod Laws
pub mod Hash
use cloudnative_supabase.Prelude.{
  ℕ, ℤ, String, ◌<>◌, ◌==◌, Bool, true, false, ◌||◌, not, Option, none, some, is_some, List, [],
  ◌∷◌, ◌++◌, Map, Result, ok, err, Error, errorf, require, map_err, ◌>>=◌, ◌>>◌, length, bytes_eq,
  codes, if◌then◌else◌,
}
use cloudnative_supabase.Prelude.Maps.{lookup}
use cloudnative_supabase.Kube.Meta.{Bytes}
use cloudnative_supabase.Kube.Core.{Secret}
use cloudnative_supabase.Crypto.Decimal.{decimal, hex}
use cloudnative_supabase.Crypto.Library.{Jwk, Library}
use cloudnative_supabase.Crypto.Jwk.{empty, parse_signing_jwk}
use cloudnative_supabase.Crypto.Jwt.{verify_es256_jwt}
use cloudnative_supabase.Crypto.PublicKey.{public_jwks}
use cloudnative_supabase.Secrets.OpaqueKey.{validate_opaque_key}

pub record ProjectCredentials : Type 0 where
  pub signing_keys : Bytes
  pub publishable_key : Bytes
  pub secret_key : Bytes
  pub anon_role_jwt : Bytes
  pub service_role_jwt : Bytes
  pub public_jwks : Bytes
  pub signing_key_id : Bytes
  pub pod_template_hash : Bytes

abbrev pub required_project_credential_keys : List String
required_project_credential_keys =
    "signingKeys" ∷ "publishableKey" ∷ "secretKey" ∷ "anonRoleJwt" ∷ "serviceRoleJwt" ∷ []

abbrev pub field_error : String → String → Error
field_error field reason = errorf ("project credential field \"" <> field <> "\": " <> reason)

-- An error's text as the reason of a field error.
abbrev in_field {ℓ} : {A : Type ℓ} → String → Result A → Result A
in_field field = map_err (λ e. field_error field e.message)

abbrev pub secret_value_in : Option Bytes → Option Bytes → Option Bytes
secret_value_in (some value) _ = some value
secret_value_in none string_value = string_value

unfoldable pub secret_value : Secret → String → Option Bytes
secret_value secret key = secret_value_in (lookup key secret.data_) (lookup key secret.string_data)

unfoldable pub is_member : String → List String → Bool
is_member key [] = false
is_member key (k ∷ keys) = k == key || is_member key keys

-- The loop over `secret.Data`. Go visits a map's keys in any order, here in the list's.
unfoldable pub check_data : Map Bytes → Result (Unit {0})
check_data [] = ok tt
check_data ((key, _) ∷ entries) =
    let rest = check_data entries in
    if is_member key required_project_credential_keys
    then rest
    else err (field_error key "unexpected field")

-- The loop over `secret.StringData`.
unfoldable pub check_string_data : Map Bytes → Map Bytes → Result (Unit {0})
check_string_data data_ [] = ok tt
check_string_data data_ ((key, _) ∷ entries) =
    let rest = check_string_data data_ entries in
    if not (is_member key required_project_credential_keys)
    then err (field_error key "unexpected field")
    else if is_some (lookup key data_)
    then err (field_error key "value is provided more than once")
    else rest

-- One round of the loop over the required keys.
abbrev present_value : String → Option Bytes → Result Bytes
present_value key none = err (field_error key "value is required")
present_value key (some []) = err (field_error key "value is required")
present_value key (some (b ∷ bs)) = ok (b ∷ bs)

unfoldable pub required_value : Secret → String → Result Bytes
required_value secret key = present_value key (secret_value secret key)

-- What is written to the hash: each key and value, the value behind its length.
unfoldable pub hash_input : List (String × Bytes) → Bytes
hash_input [] = []
hash_input ((key, value) ∷ entries) =
    codes key ++ (b':' ∷ (decimal (length value) ++ (b':' ∷ (value ++ hash_input entries))))

-- The two role tokens are verified at `anon_now` and `service_now`.
module _ (lib : Library) (anon_now service_now : ℤ) where
  unfoldable pub validate_secret : Secret → Result ProjectCredentials
  validate_secret secret = do
    check_data secret.data_
    check_string_data secret.data_ secret.string_data
    signing_keys ← required_value secret "signingKeys"
    publishable_key ← required_value secret "publishableKey"
    secret_key ← required_value secret "secretKey"
    anon_role_jwt ← required_value secret "anonRoleJwt"
    service_role_jwt ← required_value secret "serviceRoleJwt"
    signing_key ← in_field "signingKeys" (parse_signing_jwk lib signing_keys)
    jwks ←
        map_err (λ _. field_error "signingKeys" "public projection failed")
          (public_jwks lib signing_keys)
    in_field "publishableKey"
        (validate_opaque_key lib.sha256 publishable_key (codes "sb_publishable_"))
    in_field "secretKey" (validate_opaque_key lib.sha256 secret_key (codes "sb_secret_"))
    in_field "secretKey"
        (require (not (bytes_eq publishable_key secret_key)) "must be distinct from publishableKey")
    in_field "anonRoleJwt" (
        verify_es256_jwt lib anon_now anon_role_jwt signing_key (codes "anon")
          (codes "authenticated"))
    in_field "serviceRoleJwt" (
        verify_es256_jwt lib service_now service_role_jwt signing_key (codes "service_role")
          (codes "authenticated"))
    let hashed = hash_input (
        ("signingKeys", signing_keys)
        ∷ ("publishableKey", publishable_key)
        ∷ ("secretKey", secret_key)
        ∷ ("anonRoleJwt", anon_role_jwt)
        ∷ ("serviceRoleJwt", service_role_jwt)
        ∷ [])
    ok (record {
      signing_keys = signing_keys;
      publishable_key = publishable_key;
      secret_key = secret_key;
      anon_role_jwt = anon_role_jwt;
      service_role_jwt = service_role_jwt;
      public_jwks = jwks;
      signing_key_id = signing_key.kid;
      pod_template_hash = hex (lib.sha256 hashed);
    })

  -- `none` is a nil pointer.
  unfoldable pub validate_project_credentials : Option Secret → Result ProjectCredentials
  validate_project_credentials none = err (field_error "secret" "object is nil")
  validate_project_credentials (some secret) = validate_secret secret
