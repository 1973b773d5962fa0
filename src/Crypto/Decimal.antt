-- ===== src/Crypto/Decimal.antt =====
-- `fmt`'s `%d` of a length and `%x` of bytes.
use cloudnative_supabase.Prelude.{
  ℕ, ℤ, pos, negsuc, zero, suc, ◌+◌, ◌-◌, ◌*◌, ◌/◌, ◌%◌, ◌<◌, ◌≡◌, ◌≢◌, refl, sym, ◌∙◌, ap, [], ◌∷◌,
  ◌++◌, arith, ltb, All, All-append, if◌then◌else◌, Bool-cases, inl, inr,
}
use cloudnative_supabase.Kube.Meta.{Bytes}

-- A number below `fuel` is written whole.
decimal_from : ℕ → ℕ → Bytes
decimal_from zero n = []
decimal_from (suc fuel) n =
    let more = decimal_from fuel (n / 10) ++ (b'0' + n % 10) ∷ [] in
    if ltb n 10 then (b'0' + n) ∷ [] else more

unfoldable pub decimal : ℕ → Bytes
unfolding decimal_from
decimal n = decimal_from (suc n) n

-- `%d` of an `int`
unfoldable pub format_int : ℤ → Bytes
unfolding decimal
format_int (pos n) = decimal n
format_int (negsuc n) = b'-' ∷ decimal (suc n)

hex_digit : ℕ → ℕ
hex_digit i = if ltb i 10 then b'0' + i else b'a' + (i - 10)

unfoldable pub hex : Bytes → Bytes
unfolding hex_digit
hex [] = []
hex (b ∷ bs) = hex_digit (b / 16) ∷ hex_digit (b % 16) ∷ hex bs

-- The number that decimal digits stand for.
value_from : ℕ → Bytes → ℕ
value_from acc [] = acc
value_from acc (c ∷ cs) = value_from (acc * 10 + (c - b'0')) cs

value_from-append :
    (acc : ℕ) (xs ys : Bytes) → value_from acc (xs ++ ys) ≡ value_from (value_from acc xs) ys
unfolding value_from
value_from-append acc [] ys = refl
value_from-append acc (x ∷ xs) ys = value_from-append (acc * 10 + (x - b'0')) xs ys

value_from-decimal : (fuel n : ℕ) → n < fuel → value_from 0 (decimal_from fuel n) ≡ n
unfolding value_from decimal_from
value_from-decimal zero n h = elim h [ ]
value_from-decimal (suc fuel) n h = elim (Bool-cases (ltb n 10)) [
  | inl e ↦ rw e (omega arith)
  | inr e ↦ rw (e, value_from-append, value_from-decimal fuel (n / 10) (ground arith)) (omega arith)
]

pub decimal-injective : (m n : ℕ) → decimal m ≡ decimal n → m ≡ n
unfolding decimal
decimal-injective m n h =
    sym (value_from-decimal (suc m) m (omega arith))
    ∙ ap (value_from 0) h
    ∙ value_from-decimal (suc n) n (omega arith)

decimal_from-All : (fuel n : ℕ) → All (λ c. c ≢ b':') (decimal_from fuel n)
unfolding decimal_from
decimal_from-All zero n = tt
decimal_from-All (suc fuel) n = elim (Bool-cases (ltb n 10)) [
  | inl e ↦ rw e (ground arith, tt)
  | inr e ↦ rw e (All-append (λ c. c ≢ b':') _ _ (decimal_from-All fuel (n / 10)) (omega arith, tt))
]

-- No digit is a colon.
pub decimal-All : (n : ℕ) → All (λ c. c ≢ b':') (decimal n)
unfolding decimal
decimal-All n = decimal_from-All (suc n) n
