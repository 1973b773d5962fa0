-- ===== src/Secrets/OpaqueKey.antt =====
-- The opaque API keys: `validateOpaqueKey` of internal/resources/secrets/secrets.go and
-- `generateOpaqueKey` of cmd/project-credentials-wizard/generator.go. SHA-256 is a parameter.
pub mod Laws
use cloudnative_supabase.Prelude.{
  ℕ, ◌+◌, Bool, Option, none, some, List, [], ◌∷◌, ◌++◌, Result, ok, err, errorf, require, ◌>>=◌,
  ◌>>◌, length, leb, take, drop, get_or, all, ◌=ℕ=◌, bytes_eq, has_prefix, codes, if◌then◌else◌,
}
use cloudnative_supabase.Kube.Meta.{Bytes}
use cloudnative_supabase.Crypto.Base64.{raw_url_encode, is_base64_url_character}

abbrev pub opaque_key_checksum_context : Bytes
opaque_key_checksum_context = codes "supabase-self-hosted"

abbrev pub opaque_key_random_length : ℕ
opaque_key_random_length = 22

abbrev pub opaque_key_checksum_length : ℕ
opaque_key_checksum_length = 8

module _ (sha256 : Bytes → Bytes) where
  -- The checksum of a prefix and random segment, in both functions.
  unfoldable pub expected_checksum : Bytes → Bytes
  expected_checksum base =
      take opaque_key_checksum_length
        (raw_url_encode (sha256 (opaque_key_checksum_context ++ (codes "|" ++ base))))

  unfoldable pub validate_opaque_key : Bytes → Bytes → Result (Unit {0})
  validate_opaque_key value prefix = do
    require (has_prefix value prefix) "must start with the canonical prefix"
    let expected_length = length prefix + opaque_key_random_length + 1 + opaque_key_checksum_length
    require (length value =ℕ= expected_length) "must have the exact length"
    let random_start = length prefix
    let random_end = random_start + opaque_key_random_length
    require (get_or value random_end 0 =ℕ= b'_')
        "must contain a separator after the 22-character random segment"
    require (all is_base64_url_character (take opaque_key_random_length (drop random_start value)))
        "random segment contains an invalid Base64URL character"
    let checksum = drop (random_end + 1) value
    require (all is_base64_url_character checksum)
        "checksum contains an invalid Base64URL character"
    require (bytes_eq checksum (expected_checksum (take random_end value)))
        "checksum does not match the canonical key"

  -- `io.ReadFull`: a reader is the bytes that it has left.
  abbrev read_full : ℕ → Bytes → Result (Bytes × Bytes)
  read_full n random =
      if leb n (length random)
      then ok (take n random, drop n random)
      else err (errorf "unexpected EOF")

  unfoldable pub generate_opaque_key : Bytes → Bytes → Result (Bytes × Bytes)
  generate_opaque_key prefix random = do
    (random_bytes, rest) ← read_full 17 random
    let random_segment = take 22 (raw_url_encode random_bytes)
    let base = prefix ++ random_segment
    ok (base ++ b'_' ∷ expected_checksum base, rest)
