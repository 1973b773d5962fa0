-- ===== src/Crypto/Base64.antt =====
-- `base64.RawURLEncoding.EncodeToString`: the URL alphabet, no padding.
use cloudnative_supabase.Prelude.{
  ℕ, ◌+◌, ◌-◌, ◌*◌, ◌/◌, ◌%◌, ◌≡◌, Bool, true, ◌&&◌, ◌||◌, [], ◌∷◌, arith, length, ltb, leb, ◌=ℕ=◌,
  All, if◌then◌else◌,
}
use cloudnative_supabase.Kube.Meta.{Bytes}

-- The character of a number below 64.
unfoldable pub digit : ℕ → ℕ
digit i =
    if ltb i 26
    then b'A' + i
    else if ltb i 52
    then b'a' + (i - 26)
    else if ltb i 62
    then b'0' + (i - 52)
    else if i =ℕ= 62
    then b'-'
    else b'_'

unfoldable pub raw_url_encode : Bytes → Bytes
raw_url_encode [] = []
raw_url_encode (x ∷ []) = digit (x / 4) ∷ digit (x % 4 * 16) ∷ []
raw_url_encode (x ∷ y ∷ []) = digit (x / 4) ∷ digit (x % 4 * 16 + y / 16) ∷ digit (y % 16 * 4) ∷ []
raw_url_encode (x ∷ y ∷ z ∷ r) =
    digit (x / 4)
    ∷ digit (x % 4 * 16 + y / 16)
    ∷ digit (y % 16 * 4 + z / 64)
    ∷ digit (z % 64)
    ∷ raw_url_encode r

pub length-raw_url_encode : (bs : Bytes) → length (raw_url_encode bs) ≡ (4 * length bs + 2) / 3
unfolding raw_url_encode
length-raw_url_encode [] = omega arith
length-raw_url_encode (x ∷ []) = omega arith
length-raw_url_encode (x ∷ y ∷ []) = omega arith
length-raw_url_encode (x ∷ y ∷ z ∷ r) = omega (arith, length-raw_url_encode r)

-- `isBase64URLCharacter` of internal/resources/secrets/secrets.go
unfoldable pub is_base64_url_character : ℕ → Bool
is_base64_url_character r =
    leb b'A' r && leb r b'Z'
    || leb b'a' r && leb r b'z'
    || leb b'0' r && leb r b'9'
    || r =ℕ= b'-'
    || r =ℕ= b'_'

digit-is_base64 : (i : ℕ) → is_base64_url_character (digit i) ≡ true
unfolding digit is_base64_url_character
digit-is_base64 i = ground arith

-- Whatever is encoded, the text is of the URL alphabet.
pub raw_url_encode-All :
    (bs : Bytes) → All (λ c. is_base64_url_character c ≡ true) (raw_url_encode bs)
unfolding raw_url_encode
raw_url_encode-All [] = tt
raw_url_encode-All (x ∷ []) = (digit-is_base64 _, (digit-is_base64 _, tt))
raw_url_encode-All (x ∷ y ∷ []) = (digit-is_base64 _, (digit-is_base64 _, (digit-is_base64 _, tt)))
raw_url_encode-All (x ∷ y ∷ z ∷ r) = (
  digit-is_base64 _,
  (digit-is_base64 _, (digit-is_base64 _, (digit-is_base64 _, raw_url_encode-All r))),
)
