-- ===== src/Tests/Keys.antt =====
-- A signing key, a role token and opaque keys, with stand-ins for Go's libraries.
use cloudnative_supabase.Prelude.{
  String, ◌<◌, ◌≡◌, ◌↔◌, refl, true, none, List, [], ◌∷◌, ◌++◌, pos, Result, ok, err, errorf,
  length, drop, arith, codes, ap, ◌=ℕ=◌, get_or, has_prefix, bytes_eq, subst, All, if◌then◌else◌,
}
use cloudnative_supabase.Kube.Meta.{Bytes}
use cloudnative_supabase.Crypto.Base64.{digit, is_base64_url_character, raw_url_encode}
use cloudnative_supabase.Crypto.BigInt.{padded_coordinate, set_bytes, zeros, padded_coordinate_iff}
use cloudnative_supabase.Crypto.Library.{Jwk, JwtClaims, text, Point, Library}
use cloudnative_supabase.Crypto.Jwk.{
  es256, validate_signing_jwk, contains, ecdsa_private_key, decode_coordinate, decode_base64_url,
}
use cloudnative_supabase.Crypto.Jwt.{
  split_dots, audience_matches, verify_with_public_key, verify_es256_jwt,
  verify_es256_jwt_with_public_key,
}
use cloudnative_supabase.Crypto.Jwt.Laws.{IsRoleToken, verify_with_public_key_iff}
use cloudnative_supabase.Crypto.PublicKey.{public_jwk, project_point}
use cloudnative_supabase.Crypto.PublicKey.Laws.{DecodesBase64, verify-public_jwk}
use cloudnative_supabase.Secrets.OpaqueKey.{
  expected_checksum, validate_opaque_key, generate_opaque_key,
}
use cloudnative_supabase.Secrets.OpaqueKey.Laws.{
  IsCanonical, validate_opaque_key_iff, generate-validate_opaque_key,
}
use cloudnative_supabase.Secrets.Credentials.Hash.{hash_input-injective}
use cloudnative_supabase.Tests.Base64.{decode, decode-All, decode-raw_url_encode}

-- A hash of 32 bytes.
abbrev pub test_sha256 : Bytes → Bytes
test_sha256 m =
    7 ∷ 7 ∷ 7 ∷ 7 ∷ 7 ∷ 7 ∷ 7 ∷ 7 ∷ 7 ∷ 7 ∷ 7 ∷ 7 ∷ 7 ∷ 7 ∷ 7 ∷ 7 ∷ 7 ∷ 7 ∷ 7 ∷ 7 ∷ 7 ∷ 7 ∷ 7 ∷ 7
    ∷ 7 ∷ 7 ∷ 7 ∷ 7 ∷ 7 ∷ 7 ∷ 7 ∷ 7 ∷ []

abbrev thirty_one : Bytes → Bytes
thirty_one tail =
    0 ∷ 0 ∷ 0 ∷ 0 ∷ 0 ∷ 0 ∷ 0 ∷ 0 ∷ 0 ∷ 0 ∷ 0 ∷ 0 ∷ 0 ∷ 0 ∷ 0 ∷ 0 ∷ 0 ∷ 0 ∷ 0 ∷ 0 ∷ 0 ∷ 0 ∷ 0 ∷ 0
    ∷ 0 ∷ 0 ∷ 0 ∷ 0 ∷ 0 ∷ 0 ∷ 0 ∷ tail

-- The coordinate 1 in base64url.
abbrev pub test_coordinate : Bytes
test_coordinate = codes "AAAAAAAAAAAAAAAAAAAAAAAAAAAAAAAAAAAAAAAAAAE"

abbrev pub test_key : Jwk
test_key = record {
  kty = codes "EC";
  alg = es256;
  use_ = codes "sig";
  crv = codes "P-256";
  x = test_coordinate;
  y = test_coordinate;
  d = test_coordinate;
  kid = codes "k1";
  key_ops = codes "sign" ∷ [];
  ext = none;
}

-- The claims of a token whose claims are written as "s" or as another text.
abbrev claims_of : Bytes → JwtClaims
claims_of json = record {
  role = if get_or json 0 0 =ℕ= b's' then codes "service_role" else codes "anon";
  aud = text (codes "authenticated");
  iss = [];
  iat = pos 0;
  exp = pos 100;
}

abbrev pub test_library : Library
test_library = record {
  unmarshal_keys = λ _. ok (test_key ∷ []);
  unmarshal_header = λ _. ok (record { alg = es256; typ = []; kid = codes "k1" });
  unmarshal_claims = λ json. ok (claims_of json);
  marshal_key_set = λ _. ok (codes "{}");
  raw_url_decode = λ value. ok (decode value);
  url_decode = λ value. ok (decode value);
  std_decode = λ value. ok (decode value);
  sha256 = test_sha256;
  is_on_curve = λ _ _. true;
  order = 1000;
  scalar_base_mult = λ _. record { x = 1; y = 1 };
  verify = λ _ _ _ _. true;
}

abbrev bytes_of : Result Bytes → Bytes
bytes_of (ok bytes) = bytes
bytes_of (err _) = []

decoded-All : (value bytes : Bytes) → ok (decode value) ≡ ok bytes → All (λ b. b < 256) bytes
decoded-All value bytes e = subst (λ bs. All (λ b. b < 256) bs) (ap bytes_of e) (decode-All value)

test_library-DecodesBase64 : DecodesBase64 test_library
test_library-DecodesBase64 = record {
  raw_url_decode_bytes = λ value bytes e. decoded-All value bytes e;
  url_decode_bytes = λ value bytes e. decoded-All value bytes e;
  raw_url_decode-encode = λ bytes h. ap ok (decode-raw_url_encode bytes h);
}

test_point : Point
test_point = record { x = 1; y = 1 }

-- "x", then a claims segment, then a signature of 64 zero bytes.
abbrev pub token_with : Bytes → Bytes
token_with claims =
    codes "eA."
    ++ (claims
        ++ codes
            ".AAAAAAAAAAAAAAAAAAAAAAAAAAAAAAAAAAAAAAAAAAAAAAAAAAAAAAAAAAAAAAAAAAAAAAAAAAAAAAAAAAAAAA")

-- Claims "a" and "s".
abbrev pub anon_token : Bytes
anon_token = token_with (codes "YQ")

abbrev pub service_token : Bytes
service_token = token_with (codes "cw")

verify-test :
    verify_es256_jwt test_library (pos 5) anon_token test_key (codes "anon") (codes "authenticated")
    ≡ ok tt
unfolding verify_es256_jwt validate_signing_jwk bytes_eq contains ecdsa_private_key
    decode_coordinate decode_base64_url decode set_bytes verify_with_public_key split_dots
    audience_matches
verify-test = refl

expired-test :
    verify_es256_jwt test_library
      (pos 100)
      anon_token
      test_key
      (codes "anon")
      (codes "authenticated")
    ≡ err (errorf "JWT is expired")
unfolding verify_es256_jwt validate_signing_jwk bytes_eq contains ecdsa_private_key
    decode_coordinate decode_base64_url decode set_bytes verify_with_public_key split_dots
    audience_matches
expired-test = refl

verify_with_public_key_iff_example :
    (verify_with_public_key test_library
        (pos 5)
        anon_token
        (record { x = 1; y = 1 })
        (codes "k1")
        (codes "anon")
        (codes "authenticated")
      ≡ ok tt)
    ↔ IsRoleToken test_library
        (pos 5)
        anon_token
        (record { x = 1; y = 1 })
        (codes "k1")
        (codes "anon")
        (codes "authenticated")
verify_with_public_key_iff_example =
    verify_with_public_key_iff test_library (pos 5) anon_token (record { x = 1; y = 1 })
      (codes "k1") (codes "anon") (codes "authenticated")

abbrev test_public_key : Jwk
test_public_key = project_point test_key (record { x = 1; y = 1 })

public_jwk-test : public_jwk test_library test_key ≡ ok test_public_key
unfolding public_jwk validate_signing_jwk bytes_eq contains ecdsa_private_key decode_coordinate
    decode_base64_url decode set_bytes
public_jwk-test = refl

verify-public_jwk_example :
    (test_public_key.d ≡ [])
    × (verify_es256_jwt_with_public_key test_library
          (pos 5)
          anon_token
          test_public_key
          (codes "anon")
          (codes "authenticated")
        ≡ verify_es256_jwt test_library
            (pos 5)
            anon_token
            test_key
            (codes "anon")
            (codes "authenticated"))
verify-public_jwk_example =
    verify-public_jwk test_library test_library-DecodesBase64 (pos 5) anon_token (codes "anon")
      (codes "authenticated") test_key test_public_key public_jwk-test

sha256-length : (m : Bytes) → length (test_sha256 m) ≡ 32
sha256-length m = refl

abbrev pub test_publishable : Bytes
test_publishable = codes "sb_publishable_AAAAAAAAAAAAAAAAAAAAAA_BwcHBwcH"

abbrev pub test_secret : Bytes
test_secret = codes "sb_secret_AAAAAAAAAAAAAAAAAAAAAA_BwcHBwcH"

opaque-test : validate_opaque_key test_sha256 test_secret (codes "sb_secret_") ≡ ok tt
unfolding validate_opaque_key has_prefix is_base64_url_character bytes_eq expected_checksum
    raw_url_encode digit
opaque-test = refl

validate_opaque_key_iff_example :
    (validate_opaque_key test_sha256 test_secret (codes "sb_secret_") ≡ ok tt)
    ↔ IsCanonical test_sha256 (codes "sb_secret_") test_secret
validate_opaque_key_iff_example =
    validate_opaque_key_iff test_sha256 sha256-length test_secret (codes "sb_secret_")

abbrev test_random : Bytes
test_random = thirty_one []

generate-validate_opaque_key_example :
    (key : Bytes) × (generate_opaque_key test_sha256 (codes "sb_secret_") test_random
      ≡ ok (key, drop 17 test_random))
    × (validate_opaque_key test_sha256 key (codes "sb_secret_") ≡ ok tt)
generate-validate_opaque_key_example =
    generate-validate_opaque_key test_sha256 sha256-length (codes "sb_secret_") test_random
      (omega arith)

abbrev test_entries : List (String × Bytes)
test_entries = ("signingKeys", codes "a:b") ∷ ("secretKey", []) ∷ []

hash_input-injective_example : test_entries ≡ test_entries
hash_input-injective_example = hash_input-injective test_entries test_entries refl refl

padded_coordinate_iff_example : (zeros 30 ++ 1 ∷ 2 ∷ [] ≡ padded_coordinate 258) ↔ (
    (length (zeros 30 ++ 1 ∷ 2 ∷ []) ≡ 32)
    × All (λ b. b < 256) (zeros 30 ++ 1 ∷ 2 ∷ [])
    × (set_bytes (zeros 30 ++ 1 ∷ 2 ∷ []) ≡ 258))
padded_coordinate_iff_example = padded_coordinate_iff 258 (zeros 30 ++ 1 ∷ 2 ∷ []) (omega arith)
