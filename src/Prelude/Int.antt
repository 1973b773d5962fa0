-- ===== src/Prelude/Int.antt =====
-- Go's `int`, `int32` and `int64` values, as integers. `negsuc n` is -(n + 1).
use Prim.Native.Nat.{ℕ, compare, Ordering}
use mathlib.Core.Path.{◌≡◌}
use mathlib.Core.Logic.{◌↔◌}
use mathlib.Core.Bool.{Bool, true, false}
use native.Mathlib.Omega.{arith}

pub data ℤ : Type 0 where
  pos : ℕ → ℤ
  negsuc : ℕ → ℤ

abbrev nat_eq : ℕ → ℕ → Bool
nat_eq a b = elim (compare a b) [ Ordering.eq ↦ true | _ ↦ false ]

abbrev nat_leb : ℕ → ℕ → Bool
nat_leb a b = elim (compare a b) [ Ordering.gt ↦ false | _ ↦ true ]

infix 50 ◌=ℤ=◌
abbrev pub ◌=ℤ=◌ : ℤ → ℤ → Bool
pos a =ℤ= pos b = nat_eq a b
negsuc a =ℤ= negsuc b = nat_eq a b
_ =ℤ= _ = false

-- `a <= b`
abbrev pub leb_ℤ : ℤ → ℤ → Bool
leb_ℤ (pos a) (pos b) = nat_leb a b
leb_ℤ (negsuc a) (negsuc b) = nat_leb b a
leb_ℤ (negsuc a) (pos b) = true
leb_ℤ (pos a) (negsuc b) = false

pub =ℤ=_iff : (a b : ℤ) → ((a =ℤ= b) ≡ true) ↔ (a ≡ b)
=ℤ=_iff a b = ground arith
