-- ===== src/Secrets/Credentials/Laws.antt =====
-- What a validated credential bundle has.
use cloudnative_supabase.Prelude.{
  ℕ, ℤ, String, ◌≡◌, ◌≢◌, refl, subst, inl, inr, true, not, Option, none, some, [], ◌∷◌, Map, arith,
  ok, bind_ok, seq_ok, require, map_err, require-eq-ok, map_err-eq-ok, Result-cases, bytes_eq,
  bytes_eq_iff, codes, All, Bool-cases,
}
use cloudnative_supabase.Prelude.Maps.{lookup}
use cloudnative_supabase.Kube.Meta.{Bytes}
use cloudnative_supabase.Kube.Core.{Secret}
use cloudnative_supabase.Crypto.Library.{Jwk, Point, Library}
use cloudnative_supabase.Crypto.Jwk.{parse_signing_jwk, ecdsa_private_key, validate_signing_jwk}
use cloudnative_supabase.Crypto.Jwt.{verify_es256_jwt}
use cloudnative_supabase.Crypto.Jwt.Laws.{IsRoleToken, verify_with_public_key_iff}
use cloudnative_supabase.Crypto.PublicKey.{public_jwks}
use cloudnative_supabase.Secrets.OpaqueKey.{validate_opaque_key}
use cloudnative_supabase.Secrets.OpaqueKey.Laws.{IsCanonical, IsCanonical-of_validate}
use cloudnative_supabase.Secrets.Credentials.{
  ProjectCredentials, required_project_credential_keys, secret_value, is_member, check_data,
  check_string_data, present_value, in_field, field_error, required_value, validate_secret,
  validate_project_credentials,
}

-- One of the five keys of a bundle.
abbrev pub IsRequired : String → Type 0
IsRequired key = is_member key required_project_credential_keys ≡ true

check_data-All :
    (entries : Map Bytes) → check_data entries ≡ ok tt → All (λ (key, _). IsRequired key) entries
unfolding check_data
check_data-All [] h = tt
check_data-All ((key, value) ∷ entries) h =
    elim (Bool-cases (is_member key required_project_credential_keys)) [
      | inl e ↦ (e, check_data-All entries (rw e at h))
      | inr e ↦ absurd (ground arith)
    ]

-- A key of `StringData` is one of the five, and is not in `Data`.
check_string_data-All :
    (data_ entries : Map Bytes)
    → check_string_data data_ entries ≡ ok tt
    → All (λ (key, _). IsRequired key × (lookup key data_ ≡ none)) entries
unfolding check_string_data
check_string_data-All data_ [] h = tt
check_string_data-All data_ ((key, value) ∷ entries) h =
    ground (arith, check_string_data-All data_ entries)

required_value-eq-ok :
    (secret : Secret) (key : String) (value : Bytes)
    → required_value secret key ≡ ok value
    → (secret_value secret key ≡ some value) × (value ≢ [])
unfolding required_value
required_value-eq-ok secret key value h = go (secret_value secret key) h
  where
    go : (o : Option Bytes) → present_value key o ≡ ok value → (o ≡ some value) × (value ≢ [])
    go none h = cc
    go (some []) h = cc
    go (some (b ∷ bs)) h = (ground arith, ground arith)

-- A role token for a signing key, with the audience of the platform.
pub record IsTokenOf (lib : Library) (now : ℤ) (token : Bytes) (key : Jwk) (role : Bytes)
    : Type 0 where
  pub point : Point
  pub scalar : ℕ
  pub private_key : ecdsa_private_key lib key ≡ ok (point, scalar)
  pub is_role_token : IsRoleToken lib now token point key.kid role (codes "authenticated")

verify-IsTokenOf :
    (lib : Library) (now : ℤ) (token : Bytes) (key : Jwk) (role : Bytes)
    → verify_es256_jwt lib now token key role (codes "authenticated") ≡ ok tt
    → IsTokenOf lib now token key role
unfolding verify_es256_jwt
verify-IsTokenOf lib now token key role h = elim (Result-cases (validate_signing_jwk lib key)) [
  | inr (e, ev) ↦ absurd (ground arith)
  | inl (u, ev) ↦ elim (Result-cases (ecdsa_private_key lib key)) [
    | inr (e, ep) ↦ absurd (ground arith)
    | inl (p, ep) ↦ record {
      point = p.0;
      scalar = p.1;
      private_key = ep;
      is_role_token =
          (verify_with_public_key_iff lib now token p.0 key.kid role (codes "authenticated")).0
            (rw (ev, ep) at h);
    }
  ]
]

-- Exactly the five keys, each with one value that is not empty; one valid signing key; two
-- different canonical opaque keys; and two role tokens of the signing key.
pub record IsBundle (lib : Library) (anon_now service_now : ℤ) (secret : Secret)
    (c : ProjectCredentials) : Type 0 where
  pub data_keys : All (λ (key, _). IsRequired key) secret.data_
  pub string_data_keys :
      All (λ (key, _). IsRequired key × (lookup key secret.data_ ≡ none)) secret.string_data
  pub signing_keys :
      (secret_value secret "signingKeys" ≡ some c.signing_keys) × (c.signing_keys ≢ [])
  pub publishable_key :
      (secret_value secret "publishableKey" ≡ some c.publishable_key) × (c.publishable_key ≢ [])
  pub secret_key : (secret_value secret "secretKey" ≡ some c.secret_key) × (c.secret_key ≢ [])
  pub anon_role_jwt :
      (secret_value secret "anonRoleJwt" ≡ some c.anon_role_jwt) × (c.anon_role_jwt ≢ [])
  pub service_role_jwt :
      (secret_value secret "serviceRoleJwt" ≡ some c.service_role_jwt) × (c.service_role_jwt ≢ [])
  pub signing_key : Jwk
  pub signing_key_parsed : parse_signing_jwk lib c.signing_keys ≡ ok signing_key
  pub signing_key_id : c.signing_key_id ≡ signing_key.kid
  pub public_key_set : public_jwks lib c.signing_keys ≡ ok c.public_jwks
  pub publishable_canonical : IsCanonical lib.sha256 (codes "sb_publishable_") c.publishable_key
  pub secret_canonical : IsCanonical lib.sha256 (codes "sb_secret_") c.secret_key
  pub distinct : c.publishable_key ≢ c.secret_key
  pub anon_token : IsTokenOf lib anon_now c.anon_role_jwt signing_key (codes "anon")
  pub service_token :
      IsTokenOf lib service_now c.service_role_jwt signing_key (codes "service_role")

distinct_of_require : (xs ys : Bytes) → not (bytes_eq xs ys) ≡ true → xs ≢ ys
distinct_of_require xs ys h e = ground (arith, bytes_eq_iff xs ys)

module _ (lib : Library) (anon_now service_now : ℤ) where
  validate_secret-IsBundle :
      (secret : Secret) (c : ProjectCredentials)
      → validate_secret lib anon_now service_now secret ≡ ok c
      → IsBundle lib anon_now service_now secret c
  unfolding validate_secret
  validate_secret-IsBundle secret c h = seq_ok (check_data secret.data_) _ h λ e0 h.
      seq_ok (check_string_data secret.data_ secret.string_data) _ h λ e1 h.
        bind_ok (required_value secret "signingKeys") _ h λ v1 e2 h.
          bind_ok (required_value secret "publishableKey") _ h λ v2 e3 h.
            bind_ok (required_value secret "secretKey") _ h λ v3 e4 h.
              bind_ok (required_value secret "anonRoleJwt") _ h λ v4 e5 h.
                bind_ok (required_value secret "serviceRoleJwt") _ h λ v5 e6 h.
                  bind_ok (in_field "signingKeys" (parse_signing_jwk lib v1)) _ h λ key e7 h.
                    bind_ok
                      (map_err (λ _. field_error "signingKeys" "public projection failed")
                        (public_jwks lib v1))
                      _ h
                      λ jwks e8 h.
                        seq_ok
                          (in_field "publishableKey"
                            (validate_opaque_key lib.sha256 v2 (codes "sb_publishable_")))
                          _ h
                          λ e9 h.
                            seq_ok
                              (in_field "secretKey"
                                (validate_opaque_key lib.sha256 v3 (codes "sb_secret_")))
                              _ h
                              λ e10 h.
                                seq_ok
                                  (in_field "secretKey" (
                                    require (not (bytes_eq v2 v3))
                                      "must be distinct from publishableKey"))
                                  _ h
                                  λ e11 h.
                                    seq_ok
                                      (in_field "anonRoleJwt" (
                                        verify_es256_jwt lib anon_now v4 key (codes "anon")
                                          (codes "authenticated")))
                                      _ h
                                      λ e12 h.
                                        seq_ok
                                          (in_field "serviceRoleJwt" (
                                            verify_es256_jwt lib service_now v5 key
                                              (codes "service_role") (codes "authenticated")))
                                          _ h
                                          λ e13 h. ok-eq h (record {
                                            data_keys = check_data-All secret.data_ e0;
                                            string_data_keys =
                                                check_string_data-All secret.data_
                                                  secret.string_data e1;
                                            signing_keys =
                                                required_value-eq-ok secret "signingKeys" v1 e2;
                                            publishable_key =
                                                required_value-eq-ok secret "publishableKey" v2 e3;
                                            secret_key =
                                                required_value-eq-ok secret "secretKey" v3 e4;
                                            anon_role_jwt =
                                                required_value-eq-ok secret "anonRoleJwt" v4 e5;
                                            service_role_jwt =
                                                required_value-eq-ok secret "serviceRoleJwt" v5 e6;
                                            signing_key = key;
                                            signing_key_parsed = map_err-eq-ok _ _ e7;
                                            signing_key_id = refl;
                                            public_key_set = map_err-eq-ok _ _ e8;
                                            publishable_canonical =
                                                IsCanonical-of_validate lib.sha256 v2
                                                  (codes "sb_publishable_") (map_err-eq-ok _ _ e9);
                                            secret_canonical =
                                                IsCanonical-of_validate lib.sha256 v3
                                                  (codes "sb_secret_") (map_err-eq-ok _ _ e10);
                                            distinct =
                                                distinct_of_require v2 v3
                                                  (require-eq-ok _ _ (map_err-eq-ok _ _ e11));
                                            anon_token =
                                                verify-IsTokenOf lib anon_now v4 key (codes "anon")
                                                  (map_err-eq-ok _ _ e12);
                                            service_token =
                                                verify-IsTokenOf lib service_now v5 key
                                                  (codes "service_role") (map_err-eq-ok _ _ e13);
                                          })
    where
      ok-eq :
          {d : ProjectCredentials}
          → ok d ≡ ok c
          → IsBundle lib anon_now service_now secret d
          → IsBundle lib anon_now service_now secret c
      ok-eq {d} e b = subst (IsBundle lib anon_now service_now secret) (cc) b

-- A Secret is accepted only if it is a complete and consistent bundle, whose values are the result's:
-- it has exactly the five keys, each with one value that is not empty; the signing key is valid;
-- both opaque keys are canonical and differ; and each role token is a token of the signing key
-- for its role, not expired when it was verified.
pub validate_project_credentials-IsBundle :
    (lib : Library) (anon_now service_now : ℤ) (secret : Secret) (c : ProjectCredentials)
    → validate_project_credentials lib anon_now service_now (some secret) ≡ ok c
    → IsBundle lib anon_now service_now secret c
unfolding validate_project_credentials
validate_project_credentials-IsBundle lib anon_now service_now secret c h =
    validate_secret-IsBundle lib anon_now service_now secret c h
