-- ===== src/Crypto/BigInt.antt =====
-- `big.Int` of Go's standard library for values below 2^256, and `paddedCoordinate` of
-- pkg/crypto/es256.go.
use Prim.Native.Nat.{◌^◌}
use cloudnative_supabase.Prelude.{
  ℕ, zero, suc, ◌+◌, ◌-◌, ◌*◌, ◌/◌, ◌%◌, ◌≤◌, ◌<◌, ◌≡◌, refl, sym, ◌∙◌, subst, ◌↔◌, [], ◌∷◌, ◌++◌,
  arith, length, length-append, All, All-append, ◌=ℕ=◌, if◌then◌else◌, Bool-cases, inl, inr,
}
use native.Mathlib.Nat.{pow-suc, add-zero}
use cloudnative_supabase.Kube.Meta.{Bytes}

-- `new(big.Int).SetBytes(bs)`: big-endian.
set_bytes_from : ℕ → Bytes → ℕ
set_bytes_from acc [] = acc
set_bytes_from acc (b ∷ bs) = set_bytes_from (acc * 256 + b) bs

unfoldable pub set_bytes : Bytes → ℕ
unfolding set_bytes_from
set_bytes bs = set_bytes_from 0 bs

-- `value.Bytes()`: big-endian, with no leading zero. A value below 256 ^ fuel is written whole.
unfoldable pub digits_256 : ℕ → ℕ → Bytes
digits_256 zero value = []
digits_256 (suc fuel) value =
    let rest = digits_256 fuel (value / 256) ++ value % 256 ∷ [] in if value =ℕ= 0 then [] else rest

abbrev pub big_int_bytes : ℕ → Bytes
big_int_bytes value = digits_256 32 value

unfoldable pub zeros : ℕ → Bytes
zeros zero = []
zeros (suc n) = 0 ∷ zeros n

-- 32 bytes, zeros first.
unfoldable pub padded_coordinate : ℕ → Bytes
padded_coordinate value = let bytes = big_int_bytes value in zeros (32 - length bytes) ++ bytes

set_bytes_from-append :
    (acc : ℕ) (xs ys : Bytes)
    → set_bytes_from acc (xs ++ ys) ≡ set_bytes_from (set_bytes_from acc xs) ys
unfolding set_bytes_from
set_bytes_from-append acc [] ys = refl
set_bytes_from-append acc (x ∷ xs) ys = set_bytes_from-append (acc * 256 + x) xs ys

set_bytes_from-zeros : (n : ℕ) → set_bytes_from 0 (zeros n) ≡ 0
unfolding set_bytes_from zeros
set_bytes_from-zeros zero = refl
set_bytes_from-zeros (suc n) = set_bytes_from-zeros n

set_bytes_from-digits :
    (fuel value : ℕ) → value < 256 ^ fuel → set_bytes_from 0 (digits_256 fuel value) ≡ value
unfolding digits_256 set_bytes_from
set_bytes_from-digits zero value h = omega arith
set_bytes_from-digits (suc fuel) value h = elim (Bool-cases (value =ℕ= 0)) [
  | inl e ↦ rw e (ground arith)
  | inr e ↦
      rw
        (
          e,
          set_bytes_from-append,
          set_bytes_from-digits fuel (value / 256) (omega (arith, pow-suc 256 fuel)),
        )
        (omega arith)
]

length-digits : (fuel value : ℕ) → length (digits_256 fuel value) ≤ fuel
unfolding digits_256
length-digits zero value = omega arith
length-digits (suc fuel) value = ground (
  arith,
  length-digits fuel (value / 256),
  length-append (digits_256 fuel (value / 256)) (value % 256 ∷ []),
)

digits-All : (fuel value : ℕ) → All (λ b. b < 256) (digits_256 fuel value)
unfolding digits_256
digits-All zero value = tt
digits-All (suc fuel) value = ground (
  arith,
  All-append (λ b. b < 256) (digits_256 fuel (value / 256)) (value % 256 ∷ [])
      (digits-All fuel (value / 256)) (omega arith, tt),
)

length-zeros : (n : ℕ) → length (zeros n) ≡ n
unfolding zeros
length-zeros zero = refl
length-zeros (suc n) = omega (arith, length-zeros n)

zeros-All : (n : ℕ) → All (λ b. b < 256) (zeros n)
unfolding zeros
zeros-All zero = tt
zeros-All (suc n) = (omega arith, zeros-All n)

-- Every coordinate is written in 32 bytes.
pub length-padded_coordinate : (value : ℕ) → length (padded_coordinate value) ≡ 32
unfolding padded_coordinate
length-padded_coordinate value =
    let n = length (big_int_bytes value) in
    omega (
      arith,
      length-append (zeros (32 - n)) (big_int_bytes value),
      length-zeros (32 - n),
      length-digits 32 value,
    )

pub padded_coordinate-All : (value : ℕ) → All (λ b. b < 256) (padded_coordinate value)
unfolding padded_coordinate
padded_coordinate-All value =
    All-append (λ b. b < 256) (zeros (32 - length (big_int_bytes value))) (big_int_bytes value)
      (zeros-All _) (digits-All 32 value)

pub set_bytes-padded_coordinate :
    (value : ℕ) → value < 256 ^ 32 → set_bytes (padded_coordinate value) ≡ value
unfolding set_bytes padded_coordinate
set_bytes-padded_coordinate value h =
    rw (set_bytes_from-append, set_bytes_from-zeros) (set_bytes_from-digits 32 value h)

cons-cong : {b c : ℕ} {bs cs : Bytes} → b ≡ c → bs ≡ cs → b ∷ bs ≡ c ∷ cs
cons-cong e f = rw (e, f) refl

-- Texts of one length that stand for one number are the same text.
set_bytes_from-injective :
    (x y : ℕ) (bs cs : Bytes)
    → length bs ≡ length cs
    → All (λ b. b < 256) bs
    → All (λ b. b < 256) cs
    → set_bytes_from x bs ≡ set_bytes_from y cs
    → (x ≡ y) × (bs ≡ cs)
unfolding set_bytes_from
set_bytes_from-injective x y [] [] l h k e = (e, refl)
set_bytes_from-injective x y [] (c ∷ cs) l h k e = absurd (omega arith)
set_bytes_from-injective x y (b ∷ bs) [] l h k e = absurd (omega arith)
set_bytes_from-injective x y (b ∷ bs) (c ∷ cs) l (p, ps) (q, qs) e =
    let (f, g) = set_bytes_from-injective (x * 256 + b) (y * 256 + c) bs cs (omega arith) ps qs e in
    (omega arith, cons-cong (omega arith) g)

-- The padded coordinate of a number below 2^256 is the only text of 32 bytes that stands for it in
-- big-endian order.
pub padded_coordinate_iff :
    (value : ℕ) (bs : Bytes)
    → value < 256 ^ 32
    → (bs ≡ padded_coordinate value)
      ↔ ((length bs ≡ 32) × All (λ b. b < 256) bs × (set_bytes bs ≡ value))
unfolding set_bytes
padded_coordinate_iff value bs h =
    let l = length-padded_coordinate value in
    let bytes = padded_coordinate-All value in
    let back = set_bytes-padded_coordinate value h in
    (
      λ e.
          subst (λ cs. (length cs ≡ 32) × All (λ b. b < 256) cs × (set_bytes cs ≡ value)) (sym e)
            (l, bytes, back),
      λ (m, more, e).
          (set_bytes_from-injective 0 0 bs (padded_coordinate value) (m ∙ sym l) more bytes
            (e ∙ sym back)).1,
    )

set_bytes_from-lt :
    (acc k : ℕ) (bs : Bytes)
    → acc < 256 ^ k
    → All (λ b. b < 256) bs
    → set_bytes_from acc bs < 256 ^ (k + length bs)
unfolding set_bytes_from
set_bytes_from-lt acc k [] h _ = rw add-zero h
set_bytes_from-lt acc k (b ∷ bs) h (p, ps) =
    let e : k + suc (length bs) ≡ suc k + length bs = omega arith in
    rw e (set_bytes_from-lt (acc * 256 + b) (suc k) bs (omega (arith, pow-suc 256 k)) ps)

-- What 32 bytes stand for is below 2^256.
pub set_bytes-lt : (bs : Bytes) → length bs ≡ 32 → All (λ b. b < 256) bs → set_bytes bs < 256 ^ 32
unfolding set_bytes
set_bytes-lt bs l h = rw l at (set_bytes_from-lt 0 0 bs (omega arith) h)
