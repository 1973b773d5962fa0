-- ===== src/Crypto/Jwt/Laws.antt =====
-- What a role token that is accepted looks like.
use cloudnative_supabase.Prelude.{
  ℕ, ℤ, leb_ℤ, ◌≡◌, refl, sym, ◌≢◌, ◌⊎◌, ◌↔◌, ◌∙◌, Bool, true, false, not, Option, none, some, List,
  [], ◌∷◌, ◌++◌, arith, ok, length, take, drop, All, ◌=ℕ=◌, =ℕ=→eq, >>=-eq-ok, require-eq-ok,
  map_err-eq-ok, bytes_eq_iff, codes, Bool-cases, inl, inr,
}
use cloudnative_supabase.Kube.Meta.{Bytes}
use cloudnative_supabase.Crypto.BigInt.{set_bytes}
use cloudnative_supabase.Crypto.Library.{
  JwtHeader, JwtClaims, Any, text, array, other, Point, Library,
}
use cloudnative_supabase.Crypto.Jwk.{es256, decode_base64_url}
use cloudnative_supabase.Crypto.Jwt.{
  extend_first, split_dots, item_matches, some_item_matches, audience_matches, three_segments,
  verify_with_public_key,
}

abbrev pub NoDot : Bytes → Type 0
NoDot = All (λ c. c ≢ b'.')

-- The audience is the expected text, or an array that has it as a member.
abbrev pub HasItem : Bytes → List (Option Bytes) → Type 0
HasItem expected [] = ⊥
HasItem expected (item ∷ items) = (item ≡ some expected) ⊎ HasItem expected items

abbrev pub HasAudience : Any → Bytes → Type 0
HasAudience (text aud) expected = aud ≡ expected
HasAudience (array aud) expected = HasItem expected aud
HasAudience other expected = ⊥

some_item_matches_iff :
    (expected : Bytes) (items : List (Option Bytes))
    → (some_item_matches expected items ≡ true) ↔ HasItem expected items
unfolding some_item_matches item_matches
some_item_matches_iff expected [] = ground arith
some_item_matches_iff expected (none ∷ items) = ground (arith, some_item_matches_iff expected items)
some_item_matches_iff expected (some s ∷ items) =
    ground (arith, bytes_eq_iff s expected, some_item_matches_iff expected items)

pub audience_matches_iff :
    (aud : Any) (expected : Bytes)
    → (audience_matches aud expected ≡ true) ↔ HasAudience aud expected
unfolding audience_matches
audience_matches_iff (text aud) expected = bytes_eq_iff aud expected
audience_matches_iff (array aud) expected = some_item_matches_iff expected aud
audience_matches_iff other expected = ground arith

-- The text between two dots runs up to the next one.
split_dots-NoDot :
    (part rest : Bytes) → NoDot part → split_dots (part ++ b'.' ∷ rest) ≡ part ∷ split_dots rest
unfolding split_dots
split_dots-NoDot [] rest _ = refl
split_dots-NoDot (c ∷ part) rest (n, ns) = ground (arith, split_dots-NoDot part rest ns)

split_dots-NoDot_last : (part : Bytes) → NoDot part → split_dots part ≡ part ∷ []
unfolding split_dots
split_dots-NoDot_last [] _ = refl
split_dots-NoDot_last (c ∷ part) (n, ns) = ground (arith, split_dots-NoDot_last part ns)

-- The segments joined by dots.
abbrev join_dots : List Bytes → Bytes
join_dots [] = []
join_dots (part ∷ []) = part
join_dots (part ∷ q ∷ parts) = part ++ b'.' ∷ join_dots (q ∷ parts)

split_dots-ne-nil : (cs : Bytes) → split_dots cs ≢ []
unfolding split_dots
split_dots-ne-nil [] = cc
split_dots-ne-nil (c ∷ cs) = ground arith

join_dots-extend :
    (c : ℕ) (parts : List Bytes)
    → parts ≢ []
    → join_dots (extend_first c parts) ≡ c ∷ join_dots parts
join_dots-extend c [] h = absurd (h refl)
join_dots-extend c (part ∷ []) h = refl
join_dots-extend c (part ∷ q ∷ parts) h = refl

join_dots-nil : (parts : List Bytes) → parts ≢ [] → join_dots ([] ∷ parts) ≡ b'.' ∷ join_dots parts
join_dots-nil [] h = absurd (h refl)
join_dots-nil (part ∷ parts) h = refl

join_dots-split_dots : (cs : Bytes) → join_dots (split_dots cs) ≡ cs
unfolding split_dots
join_dots-split_dots [] = refl
join_dots-split_dots (c ∷ cs) = elim (Bool-cases (c =ℕ= b'.')) [
  | inl e ↦
      rw e (join_dots-nil _ (split_dots-ne-nil cs) ∙ rw (join_dots-split_dots cs) (ground arith))
  | inr e ↦ rw e (join_dots-extend c _ (split_dots-ne-nil cs) ∙ rw (join_dots-split_dots cs))
]

extend_first-All :
    (c : ℕ) (parts : List Bytes) → c ≢ b'.' → All NoDot parts → All NoDot (extend_first c parts)
extend_first-All c [] n h = ((n, tt), tt)
extend_first-All c (part ∷ parts) n (p, ps) = ((n, p), ps)

split_dots-All : (cs : Bytes) → All NoDot (split_dots cs)
unfolding split_dots
split_dots-All [] = (tt, tt)
split_dots-All (c ∷ cs) = elim (Bool-cases (c =ℕ= b'.')) [
  | inl e ↦ rw e (tt, split_dots-All cs)
  | inr e ↦ rw e (extend_first-All c _ (ground arith) (split_dots-All cs))
]

split_dots_three :
    (token p q r : Bytes)
    → (split_dots token ≡ p ∷ q ∷ r ∷ [])
      ↔ ((token ≡ p ++ b'.' ∷ (q ++ b'.' ∷ r)) × NoDot p × NoDot q × NoDot r)
split_dots_three token p q r = (
  (λ e.
      let (np, (nq, (nr, _))) = rw e at (split_dots-All token) in
      (sym (rw e at (join_dots-split_dots token)), np, nq, nr)),
  (λ (e, np, nq, nr). rw e (
      split_dots-NoDot p (q ++ b'.' ∷ r) np
      ∙ rw (split_dots-NoDot q r nq, split_dots-NoDot_last r nr))),
)

-- A token of three segments, whose header names ES256 and the key, whose claims have the role and
-- the audience and are not expired, and whose signature of 64 bytes verifies the first two segments.
pub record IsRoleToken (lib : Library) (now : ℤ) (token : Bytes) (public : Point)
    (kid role audience : Bytes) : Type 0 where
  pub part0 : Bytes
  pub part1 : Bytes
  pub part2 : Bytes
  pub header_json : Bytes
  pub header : JwtHeader
  pub claims_json : Bytes
  pub claims : JwtClaims
  pub signature : Bytes
  pub segments : token ≡ part0 ++ b'.' ∷ (part1 ++ b'.' ∷ part2)
  pub no_dots : NoDot part0 × NoDot part1 × NoDot part2
  pub header_decoded : decode_base64_url lib part0 ≡ ok header_json
  pub header_parsed : lib.unmarshal_header header_json ≡ ok header
  pub algorithm : header.alg ≡ es256
  pub key_id : header.kid ≡ kid
  pub claims_decoded : decode_base64_url lib part1 ≡ ok claims_json
  pub claims_parsed : lib.unmarshal_claims claims_json ≡ ok claims
  pub has_role : claims.role ≡ role
  pub has_audience : HasAudience claims.aud audience
  pub not_expired : leb_ℤ claims.exp now ≡ false
  pub signature_decoded : decode_base64_url lib part2 ≡ ok signature
  pub signature_length : length signature ≡ 64
  pub verified :
      lib.verify public
        (lib.sha256 (part0 ++ (codes "." ++ part1)))
        (set_bytes (take 32 signature))
        (set_bytes (drop 32 signature))
      ≡ true

three_segments-eq-ok :
    (parts : List Bytes) (ps : Bytes × Bytes × Bytes)
    → three_segments parts ≡ ok ps
    → parts ≡ ps.0 ∷ ps.1 ∷ ps.2 ∷ []
three_segments-eq-ok [] ps h = cc
three_segments-eq-ok (p ∷ []) ps h = cc
three_segments-eq-ok (p ∷ q ∷ []) ps h = cc
three_segments-eq-ok (p ∷ q ∷ r ∷ []) ps h = ground arith
three_segments-eq-ok (p ∷ q ∷ r ∷ t ∷ parts) ps h = cc

not-eq-true : (b : Bool) → not b ≡ true → b ≡ false
not-eq-true b h = ground arith

module _ (lib : Library) (now : ℤ) (token : Bytes) (public : Point)
    (kid role audience : Bytes) where
  verify_of_token :
      IsRoleToken lib now token public kid role audience
      → verify_with_public_key lib now token public kid role audience ≡ ok tt
  unfolding verify_with_public_key
  verify_of_token t =
      let s =
        (split_dots_three token t.part0 t.part1 t.part2).1
          (t.segments, t.no_dots.0, t.no_dots.1, t.no_dots.2) in
      rw (
        s,
        t.header_decoded,
        t.header_parsed,
        (bytes_eq_iff _ _).1 t.algorithm,
        (bytes_eq_iff _ _).1 t.key_id,
        t.claims_decoded,
        t.claims_parsed,
        (bytes_eq_iff _ _).1 t.has_role,
        (audience_matches_iff _ _).1 t.has_audience,
        t.not_expired,
        t.signature_decoded,
        t.signature_length,
        t.verified,
      )

  token_of_verify :
      verify_with_public_key lib now token public kid role audience ≡ ok tt
      → IsRoleToken lib now token public kid role audience
  unfolding verify_with_public_key
  token_of_verify h =
      let (ps, e0, h) = >>=-eq-ok (three_segments (split_dots token)) _ h in
      let (hj, e1, h) = >>=-eq-ok _ _ h in
      let (header, e2, h) = >>=-eq-ok _ _ h in
      let (_, e3, h) = >>=-eq-ok _ _ h in
      let (_, e4, h) = >>=-eq-ok _ _ h in
      let (cj, e5, h) = >>=-eq-ok _ _ h in
      let (claims, e6, h) = >>=-eq-ok _ _ h in
      let (_, e7, h) = >>=-eq-ok _ _ h in
      let (_, e8, h) = >>=-eq-ok _ _ h in
      let (_, e9, h) = >>=-eq-ok _ _ h in
      let (sig, e10, h) = >>=-eq-ok _ _ h in
      let (_, e11, h) = >>=-eq-ok _ _ h in
      let (segments, n0, n1, n2) =
        (split_dots_three token ps.0 ps.1 ps.2).0 (three_segments-eq-ok _ ps e0) in
      record {
        part0 = ps.0;
        part1 = ps.1;
        part2 = ps.2;
        header_json = hj;
        header = header;
        claims_json = cj;
        claims = claims;
        signature = sig;
        segments = segments;
        no_dots = (n0, n1, n2);
        header_decoded = map_err-eq-ok _ _ e1;
        header_parsed = map_err-eq-ok _ _ e2;
        algorithm = (bytes_eq_iff _ _).0 (require-eq-ok _ _ e3);
        key_id = (bytes_eq_iff _ _).0 (require-eq-ok _ _ e4);
        claims_decoded = map_err-eq-ok _ _ e5;
        claims_parsed = map_err-eq-ok _ _ e6;
        has_role = (bytes_eq_iff _ _).0 (require-eq-ok _ _ e7);
        has_audience = (audience_matches_iff _ _).0 (require-eq-ok _ _ e8);
        not_expired = not-eq-true _ (require-eq-ok _ _ e9);
        signature_decoded = map_err-eq-ok _ _ e10;
        signature_length = =ℕ=→eq _ _ (require-eq-ok _ _ e11);
        verified = require-eq-ok _ _ h;
      }

-- A token is accepted under a public key exactly when it is a role token for that key, role and
-- audience: the accepted tokens are the well-formed, unexpired and correctly signed ones.
pub verify_with_public_key_iff :
    (lib : Library) (now : ℤ) (token : Bytes) (public : Point) (kid role audience : Bytes)
    → (verify_with_public_key lib now token public kid role audience ≡ ok tt)
      ↔ IsRoleToken lib now token public kid role audience
verify_with_public_key_iff lib now token public kid role audience = (
  token_of_verify lib now token public kid role audience,
  verify_of_token lib now token public kid role audience,
)
