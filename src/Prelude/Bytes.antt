-- ===== src/Prelude/Bytes.antt =====
-- Byte strings: the bytes of an ASCII text, and equality.
use Prim.Native.Nat.{ℕ, compare, Ordering}
use Prim.Native.Char.{code}
use Prim.Native.String.{String}
use mathlib.Core.Path.{◌≡◌, refl}
use mathlib.Core.Logic.{◌↔◌}
use mathlib.Core.Bool.{Bool, true, false, ◌&&◌, ◌||◌}
use mathlib.Core.List.{List, [], ◌∷◌, ◌++◌}
use native.Mathlib.Omega.{arith}

abbrev byte_eq : ℕ → ℕ → Bool
byte_eq a b = elim (compare a b) [ Ordering.eq ↦ true | _ ↦ false ]

abbrev pub codes : String → List ℕ
codes String.[] = []
codes (String.◌∷◌ c s) = code c ∷ codes s

unfoldable pub bytes_eq : List ℕ → List ℕ → Bool
bytes_eq [] [] = true
bytes_eq (x ∷ xs) (y ∷ ys) = byte_eq x y && bytes_eq xs ys
bytes_eq _ _ = false

pub bytes_eq_iff : (xs ys : List ℕ) → (bytes_eq xs ys ≡ true) ↔ (xs ≡ ys)
unfolding bytes_eq
bytes_eq_iff [] [] = ground arith
bytes_eq_iff (x ∷ xs) (y ∷ ys) = ground (arith, bytes_eq_iff xs ys)
bytes_eq_iff [] (y ∷ ys) = ground arith
bytes_eq_iff (x ∷ xs) [] = ground arith

-- `strings.HasPrefix`
unfoldable pub has_prefix : List ℕ → List ℕ → Bool
has_prefix value [] = true
has_prefix [] (p ∷ prefix) = false
has_prefix (v ∷ value) (p ∷ prefix) = byte_eq v p && has_prefix value prefix

-- `strings.HasSuffix`
unfoldable pub has_suffix : List ℕ → List ℕ → Bool
has_suffix [] suffix = bytes_eq [] suffix
has_suffix (v ∷ value) suffix = bytes_eq (v ∷ value) suffix || has_suffix value suffix

pub has_suffix-append : (value suffix : List ℕ) → has_suffix (value ++ suffix) suffix ≡ true
unfolding has_suffix
has_suffix-append [] [] = ground (arith, bytes_eq_iff [] [])
has_suffix-append [] (s ∷ suffix) = ground (arith, bytes_eq_iff (s ∷ suffix) (s ∷ suffix))
has_suffix-append (v ∷ value) suffix = ground (arith, has_suffix-append value suffix)

pub has_prefix-append : (prefix rest : List ℕ) → has_prefix (prefix ++ rest) prefix ≡ true
unfolding has_prefix
has_prefix-append [] [] = refl
has_prefix-append [] (_ ∷ _) = refl
has_prefix-append (p ∷ prefix) rest = ground (arith, has_prefix-append prefix rest)

pub has_prefix-split :
    (value prefix : List ℕ)
    → has_prefix value prefix ≡ true
    → (rest : List ℕ) × (value ≡ prefix ++ rest)
unfolding has_prefix
has_prefix-split value [] h = (value, refl)
has_prefix-split [] (p ∷ prefix) h = cc
has_prefix-split (v ∷ value) (p ∷ prefix) h =
    let (rest, e) = has_prefix-split value prefix (ground arith) in (rest, ground arith)
