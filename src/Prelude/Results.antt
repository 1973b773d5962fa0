-- ===== src/Prelude/Results.antt =====
-- Go's `(value, error)` results. An error carries its text and what `apierrors.IsNotFound` tells.
use Prim.Native.String.{String, ◌++◌ as ◌<>◌}
use mathlib.Core.Path.{◌≡◌, refl}
use mathlib.Core.Logic.{◌⊎◌, inl, inr}
use mathlib.Core.Bool.{Bool, true, false}

pub record Error : Type 0 where
  pub is_not_found : Bool
  pub message : String

-- `fmt.Errorf` with no `%w`, and `errors.New`.
abbrev pub errorf : String → Error
errorf message = record { is_not_found = false; message = message }

-- `fmt.Errorf("...: %w", err)`: the wrapped error still answers `IsNotFound`.
abbrev pub wrap : String → Error → Error
wrap prefix e = record e { message = prefix <> ": " <> e.message }

pub data Result {ℓ} (A : Type ℓ) : Type ℓ where
  ok : A → Result A
  err : Error → Result A

infixl 5 ◌>>=◌ ◌>>◌
abbrev pub ◌>>=◌ {ℓ κ} : {A : Type ℓ} → {B : Type κ} → Result A → (A → Result B) → Result B
err failure >>= next = err failure
ok value >>= next = next value

abbrev pub ◌>>◌ {ℓ} : {B : Type ℓ} → Result (Unit {0}) → Result B → Result B
m >> k = m >>= λ _. k

-- `if !test { return errors.New(message) }`
abbrev pub require : Bool → String → Result (Unit {0})
require true message = ok tt
require false message = err (errorf message)

-- The error, seen through `f`.
abbrev pub map_err {ℓ} : {A : Type ℓ} → (Error → Error) → Result A → Result A
map_err f (ok a) = ok a
map_err f (err e) = err (f e)

pub Result-cases {ℓ} :
    {A : Type ℓ} (r : Result A) → ((a : A) × (r ≡ ok a)) ⊎ ((e : Error) × (r ≡ err e))
Result-cases (ok a) = inl (a, refl)
Result-cases (err e) = inr (e, refl)

pub >>=-eq-ok {ℓ κ} :
    {A : Type ℓ}
    → {B : Type κ} → (m : Result A) (next : A → Result B) {result : B} → (m >>= next) ≡ ok result
    → (value : A) × (m ≡ ok value) × (next value ≡ ok result)
>>=-eq-ok (err failure) next h = cc
>>=-eq-ok (ok value) next h = (value, refl, h)

pub require-eq-ok :
    (b : Bool) (message : String) {u : Unit {0}} → require b message ≡ ok u → b ≡ true
require-eq-ok true message h = refl
require-eq-ok false message h = cc

pub map_err-eq-ok {ℓ} :
    {A : Type ℓ} (f : Error → Error) (r : Result A) {a : A} → map_err f r ≡ ok a → r ≡ ok a
map_err-eq-ok f (ok a) h = h
map_err-eq-ok f (err e) h = cc

pub >>-eq-ok {ℓ} :
    {B : Type ℓ} (m : Result (Unit {0})) (k : Result B) {b : B}
    → (m >> k) ≡ ok b
    → (m ≡ ok tt) × (k ≡ ok b)
>>-eq-ok (ok tt) k h = (refl, h)
>>-eq-ok (err e) k h = cc

-- The same by continuation, for long chains: what is bound is a variable of the rest of the proof.
pub bind_ok {ℓ κ μ} :
    {A : Type ℓ} {B : Type κ} {P : Type μ} (m : Result A) (f : A → Result B) {b : B}
    → (m >>= f) ≡ ok b
    → ((a : A) → m ≡ ok a → f a ≡ ok b → P)
    → P
bind_ok (ok a) f h k = k a refl h
bind_ok (err e) f h k = cc

pub seq_ok {ℓ μ} :
    {B : Type ℓ} {P : Type μ} (m : Result (Unit {0})) (n : Result B) {b : B}
    → (m >> n) ≡ ok b
    → (m ≡ ok tt → n ≡ ok b → P)
    → P
seq_ok (ok tt) n h k = k refl h
seq_ok (err e) n h k = cc
