-- ===== src/Prelude/Effects.antt =====
-- Steps that read and write a state and may fail. A step takes the state to a result and the state
-- after it, also after an error, since what was written stays written.
use mathlib.Core.Path.{◌≡◌, refl, ap}
use mathlib.Core.Bool.{Bool, true, false}
use Prim.Native.String.{String}
use cloudnative_supabase.Prelude.Tests.{if◌then◌else◌}
use cloudnative_supabase.Prelude.Results.{Result, ok, err, Error, wrap}

abbrev pub Effect : Type 0 → Type 0 → Type 0
Effect W A = W → Result A × W

abbrev pub continue : {W A B : Type 0} → Result A × W → (A → Effect W B) → Result B × W
continue (ok a, world) next = next a world
continue (err e, world) next = (err e, world)

infixl 5 ◌>>=◌ ◌>>◌
unfoldable pub ◌>>=◌ : {W A B : Type 0} → Effect W A → (A → Effect W B) → Effect W B
m >>= next = λ world. continue (m world) next

unfoldable pub ◌>>◌ : {W B : Type 0} → Effect W (Unit {0}) → Effect W B → Effect W B
unfolding ◌>>=◌
m >> next = m >>= λ _. next

unfoldable pub lift : {W A : Type 0} → Result A → Effect W A
lift result = λ world. (result, world)

abbrev pub map_ok : {A B : Type 0} → (A → B) → Result A → Result B
map_ok f (ok a) = ok (f a)
map_ok f (err e) = err e

unfoldable pub done : {W : Type 0} → Effect W (Unit {0})
done world = (ok tt, world)

abbrev pub resume : {W A : Type 0} → Result A × W → (Error → Effect W A) → Result A × W
resume (ok a, world) handle = (ok a, world)
resume (err e, world) handle = handle e world

-- `if err != nil { return handle(err) }`
unfoldable pub rescue : {W A : Type 0} → Effect W A → (Error → Effect W A) → Effect W A
rescue m handle = λ world. resume (m world) handle

-- `err != nil && !apierrors.IsNotFound(err)`
abbrev pub ignore_not_found : {W : Type 0} → Effect W (Unit {0}) → Effect W (Unit {0})
ignore_not_found m = rescue m (λ e. if e.is_not_found then done else lift (err e))

abbrev pub wrap_error : {W A : Type 0} → String → Effect W A → Effect W A
wrap_error prefix m = rescue m (λ e. lift (err (wrap prefix e)))

-- A read of the state, and what follows each of its two results.
unfoldable pub attempt :
    {W A B : Type 0} → (W → Result A) → (A → Effect W B) → (Error → Effect W B) → Effect W B
attempt read next failed =
    λ world. elim (read world) [ ok a ↦ next a world | err e ↦ failed e world ]

-- `if apierrors.IsNotFound(err) { … } else { return err }`
abbrev pub if_not_found : {W A : Type 0} → Effect W A → Error → Effect W A
if_not_found absent e = if e.is_not_found then absent else lift (err e)

continue_ok :
    {W A B Q : Type 0} (outcome : Result A × W) (next : A → Effect W B) {b : B} {after : W}
    → continue outcome next ≡ (ok b, after)
    → ((a : A) (between : W) → outcome ≡ (ok a, between) → next a between ≡ (ok b, after) → Q)
    → Q
continue_ok (ok a, between) next h k = k a between refl h
continue_ok (err e, between) next h k = cc

-- A sequence that succeeds: its first step succeeded, and the rest did from there.
pub bind_run :
    {W A B Q : Type 0} (m : Effect W A) (next : A → Effect W B) {before after : W} {b : B}
    → (m >>= next) before ≡ (ok b, after)
    → ((a : A) (between : W) → m before ≡ (ok a, between) → next a between ≡ (ok b, after) → Q)
    → Q
unfolding ◌>>=◌
bind_run m next {before} h k = continue_ok (m before) next h k

pub then_run :
    {W B Q : Type 0} (m : Effect W (Unit {0})) (next : Effect W B) {before after : W} {b : B}
    → (m >> next) before ≡ (ok b, after)
    → ((between : W) → m before ≡ (ok tt, between) → next between ≡ (ok b, after) → Q)
    → Q
unfolding ◌>>◌
then_run m next h k = bind_run m (λ _. next) h (λ a. k)

pub if_run :
    {W B Q : Type 0} (test : Bool) (m n : Effect W B) {before : W} {outcome : Result B × W}
    → (if test then m else n) before ≡ outcome
    → (test ≡ true → m before ≡ outcome → Q)
    → (test ≡ false → n before ≡ outcome → Q)
    → Q
if_run true m n h k l = k refl h
if_run false m n h k l = l refl h

attempt_step :
    {W A B Q : Type 0} (result : Result A) (next : A → Effect W B) (failed : Error → Effect W B)
    {before : W} {outcome : Result B × W}
    → (elim result as (λ _. Result B × W) [ ok a ↦ next a before | err e ↦ failed e before ])
      ≡ outcome
    → ((a : A) → result ≡ ok a → next a before ≡ outcome → Q)
    → ((e : Error) → result ≡ err e → failed e before ≡ outcome → Q)
    → Q
attempt_step (ok a) next failed h k l = k a refl h
attempt_step (err e) next failed h k l = l e refl h

pub attempt_run :
    {W A B Q : Type 0} (read : W → Result A) (next : A → Effect W B) (failed : Error → Effect W B)
    {before : W} {outcome : Result B × W}
    → attempt read next failed before ≡ outcome
    → ((a : A) → read before ≡ ok a → next a before ≡ outcome → Q)
    → ((e : Error) → read before ≡ err e → failed e before ≡ outcome → Q)
    → Q
unfolding attempt
attempt_run read next failed {before} h k l = attempt_step (read before) next failed h k l

pub lift_run :
    {W A : Type 0} (result : Result A) {before after : W} {a : A}
    → lift result before ≡ (ok a, after)
    → (result ≡ ok a) × (before ≡ after)
unfolding lift
lift_run result h = (ap (λ o. o.0) h, ap (λ o. o.1) h)

pub error_run :
    {W A Q : Type 0} (e : Error) (before : W) {a : A} {after : W}
    → lift (err e) before ≡ (ok a, after)
    → Q
unfolding lift
error_run e before h = cc

-- A result that is lifted, and what follows it in the same state.
pub lift_bind_run :
    {W A B Q : Type 0} (result : Result A) (next : A → Effect W B) {before after : W} {b : B}
    → (lift result >>= next) before ≡ (ok b, after)
    → ((a : A) → result ≡ ok a → next a before ≡ (ok b, after) → Q)
    → Q
unfolding lift ◌>>=◌
lift_bind_run (ok a) next h k = k a refl h
lift_bind_run (err e) next h k = cc

pub done_run : {W : Type 0} (before : W) {after : W} → done before ≡ (ok tt, after) → before ≡ after
unfolding done
done_run before h = ap (λ o. o.1) h
