-- ===== src/Tests/Bundle.antt =====
-- A complete credential bundle.
use cloudnative_supabase.Prelude.{
  ◌↔◌, ◌≡◌, refl, [], ◌∷◌, pos, some, ok, err, codes, Map, bytes_eq, has_prefix,
}
use cloudnative_supabase.Prelude.Maps.{lookup}
use cloudnative_supabase.Kube.Meta.{Bytes}
use cloudnative_supabase.Kube.Core.{Secret}
use cloudnative_supabase.Crypto.Base64.{digit, is_base64_url_character, raw_url_encode}
use cloudnative_supabase.Crypto.BigInt.{set_bytes}
use cloudnative_supabase.Crypto.Decimal.{hex}
use cloudnative_supabase.Crypto.Jwk.{
  validate_signing_jwk, contains, ecdsa_private_key, decode_coordinate, decode_base64_url,
  parse_jwk_array, parse_signing_jwk,
}
use cloudnative_supabase.Crypto.Jwt.{
  split_dots, audience_matches, verify_with_public_key, verify_es256_jwt,
}
use cloudnative_supabase.Crypto.PublicKey.{public_jwk, public_jwks}
use cloudnative_supabase.Secrets.OpaqueKey.{expected_checksum, validate_opaque_key}
use cloudnative_supabase.Secrets.Credentials.{
  ProjectCredentials, secret_value, is_member, check_data, check_string_data, required_value,
  validate_secret, validate_project_credentials, field_error,
}
use cloudnative_supabase.Secrets.Credentials.Laws.{IsBundle, validate_project_credentials-IsBundle}
use cloudnative_supabase.Secrets.Implementation.{validate_email_hook_secret}
use cloudnative_supabase.Secrets.Implementation.Laws.{IsWebhook, validate_email_hook_secret_iff}
use cloudnative_supabase.Tests.Base64.{decode}
use cloudnative_supabase.Tests.Objects.{test_metadata}
use cloudnative_supabase.Tests.Keys.{
  test_library, test_sha256, test_publishable, test_secret, anon_token, service_token,
}

abbrev pub bundle_with : Map Bytes → Secret
bundle_with more = record {
  meta = test_metadata;
  type = "Opaque";
  data_ =
      ("signingKeys", codes "[]")
      ∷ ("publishableKey", test_publishable)
      ∷ ("secretKey", test_secret)
      ∷ ("anonRoleJwt", anon_token)
      ∷ ("serviceRoleJwt", service_token)
      ∷ more;
  string_data = [];
}

abbrev bundle_credentials : ProjectCredentials
bundle_credentials = record {
  signing_keys = codes "[]";
  publishable_key = test_publishable;
  secret_key = test_secret;
  anon_role_jwt = anon_token;
  service_role_jwt = service_token;
  public_jwks = codes "{}";
  signing_key_id = codes "k1";
  pod_template_hash = hex (test_sha256 []);
}

bundle-test :
    validate_project_credentials test_library (pos 5) (pos 6) (some (bundle_with []))
    ≡ ok bundle_credentials
unfolding validate_project_credentials validate_secret check_data check_string_data is_member
    required_value secret_value lookup parse_signing_jwk parse_jwk_array public_jwks public_jwk
    validate_opaque_key has_prefix is_base64_url_character bytes_eq expected_checksum raw_url_encode
    digit verify_es256_jwt validate_signing_jwk contains ecdsa_private_key decode_coordinate
    decode_base64_url decode set_bytes verify_with_public_key split_dots audience_matches
bundle-test = refl

-- A key that is not of the bundle is refused.
pub unexpected-test :
    validate_project_credentials test_library
      (pos 5)
      (pos 6)
      (some (bundle_with (("extra", []) ∷ [])))
    ≡ err (field_error "extra" "unexpected field")
unfolding validate_project_credentials validate_secret check_data is_member
unexpected-test = refl

validate_project_credentials-IsBundle_example :
    IsBundle test_library (pos 5) (pos 6) (bundle_with []) bundle_credentials
validate_project_credentials-IsBundle_example =
    validate_project_credentials-IsBundle test_library (pos 5) (pos 6) (bundle_with [])
      bundle_credentials bundle-test

abbrev hook_secret : Secret
hook_secret = record {
  meta = test_metadata;
  type = "Opaque";
  data_ = [];
  string_data = ("secret", codes "v1,whsec_AAAAAAAAAAAAAAAAAAAAAAAAAAAAAAAAAAAAAAAAAAA") ∷ [];
}

hook-test : validate_email_hook_secret test_library (some hook_secret) ≡ ok tt
unfolding validate_email_hook_secret secret_value lookup has_prefix decode
hook-test = refl

validate_email_hook_secret_iff_example :
    (validate_email_hook_secret test_library (some hook_secret) ≡ ok tt)
    ↔ IsWebhook test_library (secret_value hook_secret "secret")
validate_email_hook_secret_iff_example = validate_email_hook_secret_iff test_library hook_secret
