-- ===== src/Crypto/Library.antt =====
-- The data of pkg/crypto/es256.go, and what the package takes from elsewhere: Go's JSON, base64,
-- SHA-256 and P-256. Their functions are fields of a record, with no law; laws are hypotheses.
use cloudnative_supabase.Prelude.{ℕ, ℤ, Bool, Option, List, Result}
use cloudnative_supabase.Kube.Meta.{Bytes}

-- `use` is a reserved word.
pub record Jwk : Type 0 where
  pub kty : Bytes
  pub alg : Bytes
  pub use_ : Bytes
  pub crv : Bytes
  pub x : Bytes
  pub y : Bytes
  pub d : Bytes
  pub kid : Bytes
  pub key_ops : List Bytes
  pub ext : Option Bool

pub record JwtHeader : Type 0 where
  pub alg : Bytes
  pub typ : Bytes
  pub kid : Bytes

-- A decoded JSON value, as far as `audienceMatches` looks: a text, an array of which some items are
-- texts, or anything else.
pub data Any : Type 0 where
  text : Bytes → Any
  array : List (Option Bytes) → Any
  other : Any

pub record JwtClaims : Type 0 where
  pub role : Bytes
  pub aud : Any
  pub iss : Bytes
  pub iat : ℤ
  pub exp : ℤ

-- A point, by its coordinates.
pub record Point : Type 0 where
  pub x : ℕ
  pub y : ℕ

pub record Library : Type 0 where
  -- `json.Unmarshal` into the three types, and `json.Marshal` of `{"keys": …}`
  pub unmarshal_keys : Bytes → Result (List Jwk)
  pub unmarshal_header : Bytes → Result JwtHeader
  pub unmarshal_claims : Bytes → Result JwtClaims
  pub marshal_key_set : List Jwk → Result Bytes
  -- `base64.RawURLEncoding`, `base64.URLEncoding` and `base64.StdEncoding`
  pub raw_url_decode : Bytes → Result Bytes
  pub url_decode : Bytes → Result Bytes
  pub std_decode : Bytes → Result Bytes
  -- `sha256.Sum256`
  pub sha256 : Bytes → Bytes
  -- `elliptic.P256()`: `IsOnCurve`, `Params().N` and `ScalarBaseMult`
  pub is_on_curve : ℕ → ℕ → Bool
  pub order : ℕ
  pub scalar_base_mult : Bytes → Point
  -- `ecdsa.Verify(public, hash, r, s)`
  pub verify : Point → Bytes → ℕ → ℕ → Bool
