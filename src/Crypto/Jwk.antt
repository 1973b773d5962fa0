-- ===== src/Crypto/Jwk.antt =====
-- pkg/crypto/es256.go: parsing and checking of JSON web keys.
use cloudnative_supabase.Prelude.{
  ℕ, Bool, true, false, ◌&&◌, ◌||◌, not, List, [], ◌∷◌, Result, ok, err, errorf, wrap, require,
  map_err, ◌>>=◌, ◌>>◌, length, ltb, ◌=ℕ=◌, bytes_eq, codes,
}
use cloudnative_supabase.Kube.Meta.{Bytes}
use cloudnative_supabase.Crypto.BigInt.{set_bytes, big_int_bytes}
use cloudnative_supabase.Crypto.Library.{Jwk, Point, Library}

abbrev pub es256 : Bytes
es256 = codes "ES256"

abbrev pub empty : Bytes → Bool
empty [] = true
empty (_ ∷ _) = false

-- `contains`
unfoldable pub contains : List Bytes → Bytes → Bool
contains [] wanted = false
contains (value ∷ values) wanted = bytes_eq value wanted || contains values wanted

module _ (lib : Library) where
  unfoldable pub parse_jwk_array : Bytes → Result (List Jwk)
  parse_jwk_array raw = do
    keys ← map_err (wrap "must be valid JSON") (lib.unmarshal_keys raw)
    require (length keys =ℕ= 1) "must contain exactly one key"
    ok keys

  unfoldable pub decode_base64_url : Bytes → Result Bytes
  decode_base64_url value = elim (lib.raw_url_decode value) [
    | ok decoded ↦ ok decoded
    | err _ ↦ lib.url_decode value
  ]

  unfoldable pub decode_coordinate : Bytes → Result ℕ
  decode_coordinate value = do
    require (not (empty value)) "empty coordinate"
    decoded ← map_err (λ _. errorf "coordinate must be 32-byte base64url") (decode_base64_url value)
    require (length decoded =ℕ= 32) "coordinate must be 32-byte base64url"
    ok (set_bytes decoded)

  -- The private key, by its public point and its scalar.
  unfoldable pub ecdsa_private_key : Jwk → Result (Point × ℕ)
  ecdsa_private_key key = do
    x ← map_err (λ _. errorf "x is not a valid P-256 coordinate") (decode_coordinate key.x)
    y ← map_err (λ _. errorf "y is not a valid P-256 coordinate") (decode_coordinate key.y)
    d ← map_err (λ _. errorf "d is not a valid P-256 private scalar") (decode_coordinate key.d)
    require (lib.is_on_curve x y) "public point is not on P-256"
    require (ltb 0 d && ltb d lib.order) "private scalar is outside P-256 range"
    let derived = lib.scalar_base_mult (big_int_bytes d)
    require (derived.x =ℕ= x && derived.y =ℕ= y) "public coordinates do not match private scalar"
    ok (record { x = x; y = y }, d)

  unfoldable pub ecdsa_public_key : Jwk → Result Point
  ecdsa_public_key key = do
    x ← map_err (λ _. errorf "x is not a valid P-256 coordinate") (decode_coordinate key.x)
    y ← map_err (λ _. errorf "y is not a valid P-256 coordinate") (decode_coordinate key.y)
    require (lib.is_on_curve x y) "public point is not on P-256"
    ok (record { x = x; y = y })

  unfoldable pub validate_signing_jwk : Jwk → Result (Unit {0})
  validate_signing_jwk key = do
    require (bytes_eq key.kty (codes "EC")) "kty must be EC"
    require (bytes_eq key.crv (codes "P-256")) "crv must be P-256"
    require (bytes_eq key.alg es256) "alg must be ES256"
    require (empty key.use_ || bytes_eq key.use_ (codes "sig")) "use must be sig"
    require (not (empty key.kid)) "kid must be non-empty"
    require (length key.key_ops =ℕ= 0 || contains key.key_ops (codes "sign"))
        "key_ops must include sign"
    require (not (empty key.x || empty key.y || empty key.d)) "x, y, and d are required"
    _ ← ecdsa_private_key key
    ok tt

  -- `keys[0]` is there: the array has exactly one member.
  abbrev first_key : List Jwk → Result Jwk
  first_key [] = err (errorf "index out of range")
  first_key (key ∷ _) = ok key

  unfoldable pub parse_signing_jwk : Bytes → Result Jwk
  parse_signing_jwk raw = do
    keys ← parse_jwk_array raw
    key ← first_key keys
    validate_signing_jwk key
    ok key
