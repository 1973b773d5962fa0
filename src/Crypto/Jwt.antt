-- ===== src/Crypto/Jwt.antt =====
-- pkg/crypto/es256.go: verification of role tokens.
pub mod Laws
use cloudnative_supabase.Prelude.{
  ℕ, ℤ, leb_ℤ, Bool, true, false, ◌&&◌, ◌||◌, not, Option, none, some, List, [], ◌∷◌, ◌++◌, Result,
  ok, err, Error, errorf, require, map_err, ◌>>=◌, ◌>>◌, length, take, drop, ◌=ℕ=◌, bytes_eq, codes,
  if◌then◌else◌,
}
use cloudnative_supabase.Kube.Meta.{Bytes}
use cloudnative_supabase.Crypto.BigInt.{set_bytes}
use cloudnative_supabase.Crypto.Library.{
  Jwk, JwtHeader, JwtClaims, Any, text, array, other, Point, Library,
}
use cloudnative_supabase.Crypto.Jwk.{
  es256, empty, decode_base64_url, validate_signing_jwk, ecdsa_private_key, ecdsa_public_key,
}

-- `strings.Split(token, ".")`: never the empty list.
abbrev extend_first : ℕ → List Bytes → List Bytes
extend_first c [] = (c ∷ []) ∷ []
extend_first c (part ∷ parts) = (c ∷ part) ∷ parts

unfoldable pub split_dots : Bytes → List Bytes
split_dots [] = [] ∷ []
split_dots (c ∷ cs) =
    let parts = split_dots cs in if c =ℕ= b'.' then [] ∷ parts else extend_first c parts

item_matches : Bytes → Option Bytes → Bool
item_matches expected none = false
item_matches expected (some s) = bytes_eq s expected

some_item_matches : Bytes → List (Option Bytes) → Bool
some_item_matches expected [] = false
some_item_matches expected (item ∷ items) =
    item_matches expected item || some_item_matches expected items

unfoldable pub audience_matches : Any → Bytes → Bool
unfolding some_item_matches item_matches
audience_matches (text aud) expected = bytes_eq aud expected
audience_matches (array aud) expected = some_item_matches expected aud
audience_matches other expected = false

-- The three segments of a token.
abbrev three_segments : List Bytes → Result (Bytes × Bytes × Bytes)
three_segments (header ∷ claims ∷ signature ∷ []) = ok (header, claims, signature)
three_segments _ = err (errorf "JWT must contain three segments")

-- `now` is `time.Now().Unix()`.
module _ (lib : Library) (now : ℤ) where
  unfoldable pub verify_with_public_key : Bytes → Point → Bytes → Bytes → Bytes → Result (Unit {0})
  verify_with_public_key token public expected_kid expected_role expected_audience = do
    (part0, part1, part2) ← three_segments (split_dots token)
    header_json ←
        map_err (λ _. errorf "JWT header is not valid base64url") (decode_base64_url lib part0)
    header ← map_err (λ _. errorf "JWT header is not valid JSON") (lib.unmarshal_header header_json)
    require (bytes_eq header.alg es256) "JWT alg must be ES256"
    require (bytes_eq header.kid expected_kid) "JWT kid does not match signing key"
    claims_json ←
        map_err (λ _. errorf "JWT claims are not valid base64url") (decode_base64_url lib part1)
    claims ←
        map_err (λ _. errorf "JWT claims are not valid JSON") (lib.unmarshal_claims claims_json)
    require (bytes_eq claims.role expected_role) "JWT role does not match expected role"
    require (audience_matches claims.aud expected_audience)
        "JWT audience does not match expected audience"
    require (not (leb_ℤ claims.exp now)) "JWT is expired"
    signature ←
        map_err (λ _. errorf "JWT signature is not a valid ES256 signature")
          (decode_base64_url lib part2)
    require (length signature =ℕ= 64) "JWT signature is not a valid ES256 signature"
    let hash = lib.sha256 (part0 ++ (codes "." ++ part1))
    let r = set_bytes (take 32 signature)
    let s = set_bytes (drop 32 signature)
    require (lib.verify public hash r s) "JWT signature verification failed"

  unfoldable pub verify_es256_jwt : Bytes → Jwk → Bytes → Bytes → Result (Unit {0})
  verify_es256_jwt token key expected_role expected_audience = do
    validate_signing_jwk lib key
    (public, _) ← ecdsa_private_key lib key
    verify_with_public_key token public key.kid expected_role expected_audience

  unfoldable pub verify_es256_jwt_with_public_key : Bytes → Jwk → Bytes → Bytes → Result (Unit {0})
  verify_es256_jwt_with_public_key token key expected_role expected_audience = do
    require
        (bytes_eq key.kty (codes "EC")
          && bytes_eq key.crv (codes "P-256")
          && bytes_eq key.alg es256
          && not (empty key.kid))
        "public JWK must be a P-256 ES256 key with a kid"
    public ← ecdsa_public_key lib key
    verify_with_public_key token public key.kid expected_role expected_audience
