-- ===== src/Crypto/PublicKey/Laws.antt =====
-- The public projection of a signing key verifies what the key itself verifies.
use Prim.Native.Nat.{◌^◌}
use cloudnative_supabase.Prelude.{
  ℕ, ℤ, ◌+◌, ◌<◌, ◌≡◌, refl, inl, inr, true, false, not, [], ◌∷◌, arith, ok, >>=-eq-ok, require,
  require-eq-ok, map_err-eq-ok, Result-cases, =ℕ=→eq, All, length, bytes_eq,
}
use cloudnative_supabase.Kube.Meta.{Bytes}
use cloudnative_supabase.Crypto.Base64.{raw_url_encode, length-raw_url_encode}
use cloudnative_supabase.Crypto.BigInt.{
  padded_coordinate, length-padded_coordinate, padded_coordinate-All, set_bytes,
  set_bytes-padded_coordinate, set_bytes-lt,
}
use cloudnative_supabase.Crypto.Library.{Jwk, Point, Library}
use cloudnative_supabase.Crypto.Jwk.{
  empty, decode_base64_url, decode_coordinate, ecdsa_private_key, ecdsa_public_key,
  validate_signing_jwk,
}
use cloudnative_supabase.Crypto.Jwt.{
  verify_with_public_key, verify_es256_jwt, verify_es256_jwt_with_public_key,
}
use cloudnative_supabase.Crypto.PublicKey.{public_jwk, project_point}

-- What is assumed of Go's base64: it decodes to bytes, and decodes what it has encoded.
pub record DecodesBase64 (lib : Library) : Type 0 where
  pub raw_url_decode_bytes :
      (value bytes : Bytes) → lib.raw_url_decode value ≡ ok bytes → All (λ b. b < 256) bytes
  pub url_decode_bytes :
      (value bytes : Bytes) → lib.url_decode value ≡ ok bytes → All (λ b. b < 256) bytes
  pub raw_url_decode-encode :
      (bytes : Bytes)
      → All (λ b. b < 256) bytes
      → lib.raw_url_decode (raw_url_encode bytes) ≡ ok bytes

empty_of_length : (n : ℕ) (bs : Bytes) → length bs ≡ n + 1 → empty bs ≡ false
empty_of_length n [] h = absurd (omega arith)
empty_of_length n (b ∷ bs) h = refl

module _ (lib : Library) (base64 : DecodesBase64 lib) where
  decode_base64_url-All :
      (value bytes : Bytes) → decode_base64_url lib value ≡ ok bytes → All (λ b. b < 256) bytes
  unfolding decode_base64_url
  decode_base64_url-All value bytes h =
      ground (arith, base64.raw_url_decode_bytes value bytes, base64.url_decode_bytes value bytes)

  decode_coordinate-lt : (value : Bytes) (x : ℕ) → decode_coordinate lib value ≡ ok x → x < 256 ^ 32
  unfolding decode_coordinate
  decode_coordinate-lt value x h =
      let (_, _, h) = >>=-eq-ok (require (not (empty value)) "empty coordinate") _ h in
      let (bytes, e, h) = >>=-eq-ok _ _ h in
      let (_, l, h) = >>=-eq-ok _ _ h in
      let bound =
        set_bytes-lt bytes (=ℕ=→eq _ _ (require-eq-ok _ _ l))
          (decode_base64_url-All value bytes (map_err-eq-ok _ _ e)) in
      let e : set_bytes bytes ≡ x = ground arith in rw e at bound

  decode_base64_url-encode :
      (bytes : Bytes)
      → All (λ b. b < 256) bytes
      → decode_base64_url lib (raw_url_encode bytes) ≡ ok bytes
  unfolding decode_base64_url
  decode_base64_url-encode bytes h = ground (arith, base64.raw_url_decode-encode bytes h)

  decode_coordinate-encode :
      (x : ℕ) → x < 256 ^ 32 → decode_coordinate lib (raw_url_encode (padded_coordinate x)) ≡ ok x
  unfolding decode_coordinate
  decode_coordinate-encode x h =
      let bs = padded_coordinate x in
      let nonempty : empty (raw_url_encode bs) ≡ false =
        empty_of_length 42 _
          (omega (arith, length-raw_url_encode bs, length-padded_coordinate x)) in
      rw (
        nonempty,
        decode_base64_url-encode bs (padded_coordinate-All x),
        length-padded_coordinate x,
        set_bytes-padded_coordinate x h,
      )

  -- The point of a private key is on the curve, and each coordinate fits 32 bytes.
  private_key_point :
      (key : Jwk) (p : Point × ℕ)
      → ecdsa_private_key lib key ≡ ok p
      → (p.0.x < 256 ^ 32) × (p.0.y < 256 ^ 32) × (lib.is_on_curve p.0.x p.0.y ≡ true)
  unfolding ecdsa_private_key
  private_key_point key p h = elim (Result-cases (decode_coordinate lib key.x)) [
    | inr (e, ex) ↦ absurd (ground arith)
    | inl (x, ex) ↦ elim (Result-cases (decode_coordinate lib key.y)) [
      | inr (e, ey) ↦ absurd (ground arith)
      | inl (y, ey) ↦
          let bx = decode_coordinate-lt key.x x ex in
          let by = decode_coordinate-lt key.y y ey in (ground arith, ground arith, ground arith)
    ]
  ]

  validate-kid :
      (key : Jwk) (u : Unit {0}) → validate_signing_jwk lib key ≡ ok u → empty key.kid ≡ false
  unfolding validate_signing_jwk
  validate-kid key u h = ground arith

  public_key-project_point :
      (key : Jwk) (p : Point)
      → p.x < 256 ^ 32
      → p.y < 256 ^ 32
      → lib.is_on_curve p.x p.y ≡ true
      → ecdsa_public_key lib (project_point key p) ≡ ok p
  unfolding ecdsa_public_key project_point
  public_key-project_point key p hx hy on_curve =
      rw (decode_coordinate-encode p.x hx, decode_coordinate-encode p.y hy, on_curve)

  verify-project_point :
      (now : ℤ) (token role audience : Bytes) (key : Jwk) (p : Point)
      → empty key.kid ≡ false
      → ecdsa_public_key lib (project_point key p) ≡ ok p
      → verify_es256_jwt_with_public_key lib now token (project_point key p) role audience
        ≡ verify_with_public_key lib now token p key.kid role audience
  unfolding verify_es256_jwt_with_public_key
  verify-project_point now token role audience key p nonempty e =
      rw e (unfold project_point bytes_eq in rw nonempty)

-- If Go's base64 decodes to bytes and decodes what it has encoded, then the public projection of a
-- key, where there is one, has no private scalar, and it accepts and refuses each token, role and
-- audience at each time with the same result as the private key.
pub verify-public_jwk :
    (lib : Library)
    → DecodesBase64 lib
    → (now : ℤ) (token role audience : Bytes) (key public : Jwk) → public_jwk lib key ≡ ok public
    → (public.d ≡ [])
      × (verify_es256_jwt_with_public_key lib now token public role audience
          ≡ verify_es256_jwt lib now token key role audience)
unfolding public_jwk verify_es256_jwt
verify-public_jwk lib base64 now token role audience key public h =
    elim (Result-cases (validate_signing_jwk lib key)) [
      | inr (e, ev) ↦ absurd (ground arith)
      | inl (u, ev) ↦ elim (Result-cases (ecdsa_private_key lib key)) [
        | inr (e, ep) ↦ absurd (ground arith)
        | inl (p, ep) ↦
            let (hx, hy, on_curve) = private_key_point lib base64 key p ep in
            let projected : project_point key p.0 ≡ public = ground arith in
            rw (← projected, ev, ep)
              (
                unfold project_point in refl,
                verify-project_point lib base64 now token role audience key p.0
                    (validate-kid lib base64 key u ev)
                    (public_key-project_point lib base64 key p.0 hx hy on_curve),
              )
      ]
    ]
