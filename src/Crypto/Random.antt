-- ===== src/Crypto/Random.antt =====
-- pkg/crypto/password.go. The state `W` holds the random source.
use cloudnative_supabase.Prelude.{
  ℕ, ◌=ℕ=◌, String, ◌<>◌, ◌++◌, ok, err, errorf, codes, if◌then◌else◌,
}
use cloudnative_supabase.Prelude.Effects.{Effect, ◌>>=◌, lift}
use cloudnative_supabase.Kube.Meta.{Bytes}
use cloudnative_supabase.Crypto.Decimal.{hex}

-- What `rand.Read` fills a buffer with, and the count that it returns.
pub record Read : Type 0 where
  pub buffer : Bytes
  pub count : ℕ

-- `crypto/rand.Read` on a buffer of the given length, and `base64.StdEncoding.EncodeToString`.
pub record RandomSource (W : Type 0) : Type 0 where
  pub read : ℕ → Effect W Read
  pub std_encode : Bytes → Bytes
  -- the count in the error's text
  pub text_of : ℕ → String

module _ {W : Type 0} (source : RandomSource W) where
  -- The bytes, if all were read.
  unfoldable pub read_bytes : ℕ → Effect W Bytes
  read_bytes n = source.read n >>= λ read.
      if read.count =ℕ= n
      then lift (ok read.buffer)
      else lift (
          err (
            errorf (
              "insufficient random bytes: got "
              <> source.text_of read.count
              <> ", want "
              <> source.text_of n)))

  unfoldable pub generate_hex : ℕ → Effect W Bytes
  unfolding read_bytes
  generate_hex n = read_bytes n >>= λ bytes. lift (ok (hex bytes))

  unfoldable pub generate_base64 : ℕ → Effect W Bytes
  unfolding read_bytes
  generate_base64 n = read_bytes n >>= λ bytes. lift (ok (source.std_encode bytes))

  unfoldable pub generate_password : Effect W Bytes
  unfolding generate_hex
  generate_password = generate_hex 32

  unfoldable pub generate_webhook_secret : Effect W Bytes
  unfolding generate_base64
  generate_webhook_secret = generate_base64 32 >>= λ secret. lift (ok (codes "v1,whsec_" ++ secret))
