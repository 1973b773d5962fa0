-- ===== src/Crypto/PublicKey.antt =====
-- pkg/crypto/es256.go: the public projection of a signing key.
pub mod Laws
use cloudnative_supabase.Prelude.{
  Option, none, some, List, [], ◌∷◌, Result, ok, err, wrap, map_err, ◌>>=◌, ◌>>◌, codes,
}
use cloudnative_supabase.Kube.Meta.{Bytes}
use cloudnative_supabase.Crypto.Base64.{raw_url_encode}
use cloudnative_supabase.Crypto.BigInt.{padded_coordinate}
use cloudnative_supabase.Crypto.Library.{Jwk, Point, Library}
use cloudnative_supabase.Crypto.Jwk.{
  es256, validate_signing_jwk, ecdsa_private_key, parse_signing_jwk,
}

-- The unpadded coordinates that the source writes first are overwritten before they are read.
unfoldable pub project_point : Jwk → Point → Jwk
project_point key public = record {
  kty = codes "EC";
  alg = es256;
  use_ = codes "sig";
  crv = codes "P-256";
  x = raw_url_encode (padded_coordinate public.x);
  y = raw_url_encode (padded_coordinate public.y);
  d = [];
  kid = key.kid;
  key_ops = codes "verify" ∷ [];
  ext = key.ext;
}

module _ (lib : Library) where
  unfoldable pub public_jwk : Jwk → Result Jwk
  public_jwk key = do
    validate_signing_jwk lib key
    (public, _) ← ecdsa_private_key lib key
    ok (project_point key public)

  unfoldable pub public_jwks : Bytes → Result Bytes
  public_jwks raw = do
    key ← parse_signing_jwk lib raw
    public ← public_jwk key
    map_err (wrap "marshalling public JWKS") (lib.marshal_key_set (public ∷ []))
