-- ===== src/Crypto.antt =====
-- pkg/crypto, and the encodings of Go's standard library that it uses.
pub mod Base64
pub mod BigInt
pub mod Decimal
pub mod Library
pub mod Jwk
pub mod Jwt
pub mod PublicKey
pub mod Random
