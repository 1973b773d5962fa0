-- ===== src/Tests/Base64.antt =====
-- A decoder of unpadded base64url, which stands for Go's.
use cloudnative_supabase.Prelude.{
  ℕ, ◌+◌, ◌-◌, ◌*◌, ◌/◌, ◌%◌, ◌≡◌, ◌<◌, refl, [], ◌∷◌, leb, ◌=ℕ=◌, if◌then◌else◌, All, arith,
}
use cloudnative_supabase.Kube.Meta.{Bytes}
use cloudnative_supabase.Crypto.Base64.{digit, raw_url_encode}

-- The value of a character, 0 for one that is not in the alphabet.
abbrev value_of : ℕ → ℕ
value_of c =
    if leb b'a' c
    then (c - b'a') + 26
    else if c =ℕ= b'_'
    then 63
    else if leb b'A' c
    then c - b'A'
    else if leb b'0' c
    then (c - b'0') + 52
    else 62

value_of-digit : (n : ℕ) → n < 64 → value_of (digit n) ≡ n
unfolding digit
value_of-digit n h = ground arith

abbrev byte0 : ℕ → ℕ → ℕ
byte0 a b = (value_of a * 4 + value_of b / 16) % 256

abbrev byte1 : ℕ → ℕ → ℕ
byte1 b c = (value_of b % 16 * 16 + value_of c / 4) % 256

abbrev byte2 : ℕ → ℕ → ℕ
byte2 c d = (value_of c % 4 * 64 + value_of d) % 256

unfoldable pub decode : Bytes → Bytes
decode [] = []
decode (a ∷ []) = []
decode (a ∷ b ∷ []) = byte0 a b ∷ []
decode (a ∷ b ∷ c ∷ []) = byte0 a b ∷ byte1 b c ∷ []
decode (a ∷ b ∷ c ∷ d ∷ r) = byte0 a b ∷ byte1 b c ∷ byte2 c d ∷ decode r

pub decode-All : (text : Bytes) → All (λ b. b < 256) (decode text)
unfolding decode
decode-All [] = tt
decode-All (a ∷ []) = tt
decode-All (a ∷ b ∷ []) = (omega arith, tt)
decode-All (a ∷ b ∷ c ∷ []) = (omega arith, (omega arith, tt))
decode-All (a ∷ b ∷ c ∷ d ∷ r) = (omega arith, (omega arith, (omega arith, decode-All r)))

byte0-digit :
    (x y : ℕ) → x < 256 → y < 256 → byte0 (digit (x / 4)) (digit (x % 4 * 16 + y / 16)) ≡ x
byte0-digit x y hx hy =
    rw (value_of-digit (x / 4) (omega arith), value_of-digit (x % 4 * 16 + y / 16) (omega arith))
      (omega arith)

byte1-digit :
    (x y z : ℕ)
    → x < 256
    → y < 256
    → z < 256
    → byte1 (digit (x % 4 * 16 + y / 16)) (digit (y % 16 * 4 + z / 64)) ≡ y
byte1-digit x y z hx hy hz =
    rw
      (
        value_of-digit (x % 4 * 16 + y / 16) (omega arith),
        value_of-digit (y % 16 * 4 + z / 64) (omega arith),
      )
      (omega arith)

byte2-digit :
    (y z : ℕ) → y < 256 → z < 256 → byte2 (digit (y % 16 * 4 + z / 64)) (digit (z % 64)) ≡ z
byte2-digit y z hy hz =
    rw (value_of-digit (y % 16 * 4 + z / 64) (omega arith), value_of-digit (z % 64) (omega arith))
      (omega arith)

byte0-digit_last : (x : ℕ) → x < 256 → byte0 (digit (x / 4)) (digit (x % 4 * 16)) ≡ x
byte0-digit_last x hx =
    rw (value_of-digit (x / 4) (omega arith), value_of-digit (x % 4 * 16) (omega arith))
      (omega arith)

byte1-digit_last :
    (x y : ℕ) → x < 256 → y < 256 → byte1 (digit (x % 4 * 16 + y / 16)) (digit (y % 16 * 4)) ≡ y
byte1-digit_last x y hx hy =
    rw
      (
        value_of-digit (x % 4 * 16 + y / 16) (omega arith),
        value_of-digit (y % 16 * 4) (omega arith),
      )
      (omega arith)

pub decode-raw_url_encode : (bs : Bytes) → All (λ b. b < 256) bs → decode (raw_url_encode bs) ≡ bs
unfolding decode raw_url_encode
decode-raw_url_encode [] h = refl
decode-raw_url_encode (x ∷ []) (hx, _) = rw (byte0-digit_last x hx) refl
decode-raw_url_encode (x ∷ y ∷ []) (hx, (hy, _)) =
    rw (byte0-digit x y hx hy, byte1-digit_last x y hx hy) refl
decode-raw_url_encode (x ∷ y ∷ z ∷ r) (hx, (hy, (hz, h))) =
    rw
      (
        byte0-digit x y hx hy,
        byte1-digit x y z hx hy hz,
        byte2-digit y z hy hz,
        decode-raw_url_encode r h,
      )
      refl
