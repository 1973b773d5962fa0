-- ===== src/Secrets/OpaqueKey/Laws.antt =====
-- Which opaque keys are accepted, and that the generated ones are.
use cloudnative_supabase.Prelude.{
  ℕ, ◌+◌, ◌≤◌, ◌≡◌, sym, ◌∙◌, ap, ◌↔◌, true, [], ◌∷◌, ◌++◌, arith, ok, length, length-append, take,
  drop, get_or, all, All, All-take, bytes_eq_iff, has_prefix, has_prefix-append, has_prefix-split,
  take-append_add, drop-append_add, get_or-append_add, take-append_self, drop-append_self,
  take-append-drop, drop-cons, length-take,
}
use mathlib.Core.List.{append_assoc}
use cloudnative_supabase.Kube.Meta.{Bytes}
use cloudnative_supabase.Crypto.Base64.{
  raw_url_encode, is_base64_url_character, length-raw_url_encode, raw_url_encode-All,
}
use cloudnative_supabase.Secrets.OpaqueKey.{
  expected_checksum, validate_opaque_key, generate_opaque_key,
}

abbrev IsBase64Url : ℕ → Type 0
IsBase64Url c = is_base64_url_character c ≡ true

all_iff : (cs : Bytes) → (all is_base64_url_character cs ≡ true) ↔ All IsBase64Url cs
all_iff [] = ground arith
all_iff (c ∷ cs) = ground (arith, all_iff cs)

checksum_start :
    (prefix body : Bytes) → drop (length prefix + 22 + 1) (prefix ++ body) ≡ drop 23 body
checksum_start prefix body =
    let e : length prefix + 22 + 1 ≡ length prefix + 23 = omega arith in
    rw e (drop-append_add prefix body 23)

-- The parts of a random segment, separator and checksum.
module _ (random checksum : Bytes) (l : length random ≡ 22) where
  abbrev body : Bytes
  body = random ++ b'_' ∷ checksum

  take-body : take 22 body ≡ random
  take-body = rw (← l) (take-append_self random (b'_' ∷ checksum))

  drop-body : drop 23 body ≡ checksum
  drop-body =
      let e : 23 ≡ length random + 1 = omega arith in
      rw e (drop-append_add random (b'_' ∷ checksum) 1)

  separator-body : get_or body 22 0 ≡ b'_'
  separator-body =
      let e : 22 ≡ length random + 0 = omega arith in
      rw e (get_or-append_add random (b'_' ∷ checksum) 0 0)

module _ (sha256 : Bytes → Bytes) where
  -- A canonical key: the prefix, 22 characters of the URL alphabet, `_`, and the checksum of all that
  -- stands before the `_`.
  pub record IsCanonical (prefix value : Bytes) : Type 0 where
    pub random : Bytes
    pub random_length : length random ≡ 22
    pub random_alphabet : All IsBase64Url random
    pub shape : value ≡ prefix ++ (random ++ b'_' ∷ expected_checksum sha256 (prefix ++ random))

  validate_iff :
      (prefix body : Bytes)
      → (validate_opaque_key sha256 (prefix ++ body) prefix ≡ ok tt) ↔ (
          (length body ≡ 31)
          × (get_or body 22 0 ≡ b'_')
          × All IsBase64Url (take 22 body)
          × All IsBase64Url (drop 23 body)
          × (drop 23 body ≡ expected_checksum sha256 (prefix ++ take 22 body)))
  unfolding validate_opaque_key
  validate_iff prefix body =
      rw
        (
          has_prefix-append prefix body,
          length-append prefix body,
          take-append_add prefix body 22,
          drop-append_self prefix body,
          get_or-append_add prefix body 22,
          checksum_start prefix body,
        )
        (ground (
          arith,
          all_iff (take 22 body),
          all_iff (drop 23 body),
          bytes_eq_iff (drop 23 body) (expected_checksum sha256 (prefix ++ take 22 body)),
        ))

  body_split :
      (body : Bytes)
      → length body ≡ 31
      → get_or body 22 0 ≡ b'_'
      → body ≡ take 22 body ++ b'_' ∷ drop 23 body
  body_split body l u =
      sym (take-append-drop 22 body)
      ∙ ap (λ t. take 22 body ++ t)
          (drop-cons 22 body 0 (omega arith) ∙ ap (λ c. c ∷ drop 23 body) u)

  length-expected_checksum :
      (base : Bytes)
      → ((m : Bytes) → length (sha256 m) ≡ 32)
      → length (expected_checksum sha256 base) ≡ 8
  unfolding expected_checksum
  length-expected_checksum base h =
      length-take 8 _ (omega (arith, length-raw_url_encode (sha256 _), h _))

  expected_checksum-All : (base : Bytes) → All IsBase64Url (expected_checksum sha256 base)
  unfolding expected_checksum
  expected_checksum-All base = All-take IsBase64Url 8 _ (raw_url_encode-All _)

  validate-has_prefix :
      (value prefix : Bytes)
      → validate_opaque_key sha256 value prefix ≡ ok tt
      → has_prefix value prefix ≡ true
  unfolding validate_opaque_key
  validate-has_prefix value prefix h = ground arith

  pub IsCanonical-of_validate :
      (value prefix : Bytes)
      → validate_opaque_key sha256 value prefix ≡ ok tt
      → IsCanonical prefix value
  IsCanonical-of_validate value prefix h =
      let (body, split) = has_prefix-split value prefix (validate-has_prefix value prefix h) in
      let (l, u, r, _, k) = (validate_iff prefix body).0 (rw split at h) in
      record {
        random = take 22 body;
        random_length = length-take 22 body (omega arith);
        random_alphabet = r;
        shape = split ∙ ap (λ t. prefix ++ t) (rw (← k) (body_split body l u));
      }

  validate_of_canonical :
      ((m : Bytes) → length (sha256 m) ≡ 32)
      → (value prefix : Bytes) → IsCanonical prefix value
      → validate_opaque_key sha256 value prefix ≡ ok tt
  validate_of_canonical h value prefix c =
      let checksum = expected_checksum sha256 (prefix ++ c.random) in
      let t = take-body c.random checksum c.random_length in
      let d = drop-body c.random checksum c.random_length in
      rw c.shape (
        (validate_iff prefix (c.random ++ b'_' ∷ checksum)).1 (
          omega (
            arith,
            length-append c.random (b'_' ∷ checksum),
            length-expected_checksum (prefix ++ c.random) h,
            c.random_length,
          ),
          separator-body c.random checksum c.random_length,
          rw t c.random_alphabet,
          rw d (expected_checksum-All (prefix ++ c.random)),
          rw (d, t),
        ))

-- With a hash of 32 bytes, a value is accepted for a prefix exactly when it is the prefix, 22
-- characters of the URL alphabet, `_`, and the checksum of all that stands before the `_`.
pub validate_opaque_key_iff :
    (sha256 : Bytes → Bytes)
    → ((m : Bytes) → length (sha256 m) ≡ 32)
    → (value prefix : Bytes)
    → (validate_opaque_key sha256 value prefix ≡ ok tt) ↔ IsCanonical sha256 prefix value
validate_opaque_key_iff sha256 h value prefix =
    (IsCanonical-of_validate sha256 value prefix, validate_of_canonical sha256 h value prefix)

-- With a hash of 32 bytes and 17 random bytes at hand, the wizard's key for a prefix is produced, is
-- accepted by the operator for that prefix, and has used up just those bytes.
pub generate-validate_opaque_key :
    (sha256 : Bytes → Bytes)
    → ((m : Bytes) → length (sha256 m) ≡ 32)
    → (prefix random : Bytes) → 17 ≤ length random
    → (key : Bytes) × (generate_opaque_key sha256 prefix random ≡ ok (key, drop 17 random))
      × (validate_opaque_key sha256 key prefix ≡ ok tt)
unfolding generate_opaque_key
generate-validate_opaque_key sha256 h prefix random enough =
    let segment = take 22 (raw_url_encode (take 17 random)) in
    let l : length segment ≡ 22 =
      length-take 22 _
        (omega (arith, length-raw_url_encode (take 17 random), length-take 17 random enough)) in
    let key = (prefix ++ segment) ++ b'_' ∷ expected_checksum sha256 (prefix ++ segment) in
    (
      key,
      ground arith,
      validate_of_canonical sha256 h key prefix (record {
        random = segment;
        random_length = l;
        random_alphabet = All-take IsBase64Url 22 _ (raw_url_encode-All (take 17 random));
        shape = append_assoc prefix segment _;
      }),
    )
