-- ===== src/Deployments/GoTrueEnv/Laws.antt =====
-- Which settings a container gets from the operator's and the user's.
use cloudnative_supabase.Prelude.{
  ℕ, zero, suc, ◌+◌, ◌≡◌, refl, ◌∙◌, sym, String, ◌==◌, eq_iff, Option, none, some, List, [], ◌∷◌,
  ◌++◌, Map, arith, length, Bool-cases, inl, inr, Option-cases, if◌then◌else◌,
}
use cloudnative_supabase.Prelude.Maps.{lookup, insert, lookup-insert}
use cloudnative_supabase.Kube.Core.{EnvVar}
use cloudnative_supabase.Api.Auth.{GoTrueEnvVar}
use cloudnative_supabase.Deployments.GoTrueEnv.{
  is_operator_owned_go_true_env, env_var, set, index_env, place, apply_one, apply_all,
  apply_go_true_env,
}

-- The first of two settings that is there.
abbrev pub or_else {ℓ} : {A : Type ℓ} → Option A → Option A → Option A
or_else (some a) other = some a
or_else none other = other

-- What a container sees for a name: the last variable of that name.
abbrev pub value_of : String → List EnvVar → Option EnvVar
value_of name [] = none
value_of name (v ∷ env) = or_else (value_of name env) (if v.name == name then some v else none)

-- The last setting of a name among the user's.
abbrev pub last_configured : String → List GoTrueEnvVar → Option EnvVar
last_configured name [] = none
last_configured name (c ∷ rest) =
    or_else (last_configured name rest) (if c.name == name then some (env_var c) else none)

abbrev shift : Option ℕ → Option ℕ
shift none = none
shift (some i) = some (suc i)

-- The position of the last variable of a name.
index_of : String → List EnvVar → Option ℕ
index_of name [] = none
index_of name (v ∷ env) =
    or_else (shift (index_of name env)) (if v.name == name then some 0 else none)

value_of-none :
    (name : String) (env : List EnvVar) → index_of name env ≡ none → value_of name env ≡ none
unfolding index_of
value_of-none name [] h = refl
value_of-none name (v ∷ env) h = ground (arith, value_of-none name env)

-- Overwriting the last variable of a name changes what is seen for that name, and nothing else.
value_of-set :
    (name other : String) (env : List EnvVar) (i : ℕ) (v : EnvVar)
    → index_of name env ≡ some i
    → v.name ≡ name
    → value_of other (set env i v) ≡ (if name == other then some v else value_of other env)
unfolding index_of set
value_of-set name other [] i v h e = cc
value_of-set name other (w ∷ env) zero v h e = ground (
  arith,
  value_of-none name env,
  eq_iff name other,
  eq_iff w.name name,
  eq_iff v.name other,
  eq_iff w.name other,
)
value_of-set name other (w ∷ env) (suc i) v h e = ground (arith, value_of-set name other env i v)

index_of-set :
    (name other : String) (env : List EnvVar) (i : ℕ) (v : EnvVar)
    → index_of name env ≡ some i
    → v.name ≡ name
    → index_of other (set env i v) ≡ index_of other env
unfolding index_of set
index_of-set name other [] i v h e = cc
index_of-set name other (w ∷ env) zero v h e =
    ground (arith, eq_iff name other, eq_iff w.name name, eq_iff v.name other, eq_iff w.name other)
index_of-set name other (w ∷ env) (suc i) v h e = ground (arith, index_of-set name other env i v)

value_of-append :
    (other : String) (env : List EnvVar) (v : EnvVar)
    → value_of other (env ++ v ∷ []) ≡ (if v.name == other then some v else value_of other env)
value_of-append other [] v = ground arith
value_of-append other (w ∷ env) v = ground (arith, value_of-append other env v)

index_of-append :
    (other : String) (env : List EnvVar) (v : EnvVar)
    → index_of other (env ++ v ∷ [])
      ≡ (if v.name == other then some (length env) else index_of other env)
unfolding index_of
index_of-append other [] v = ground arith
index_of-append other (w ∷ env) v = ground (arith, index_of-append other env v)

abbrev shift_by : ℕ → Option ℕ → Option ℕ
shift_by k none = none
shift_by k (some i) = some (k + i)

-- The positions that the first loop records.
lookup-index_env :
    (name : String) (k : ℕ) (env : List EnvVar) (m : Map ℕ)
    → lookup name (index_env k env m) ≡ or_else (shift_by k (index_of name env)) (lookup name m)
unfolding index_env index_of
lookup-index_env name k [] m = refl
lookup-index_env name k (v ∷ env) m =
    ground
      (arith, lookup-index_env name (suc k) env (insert v.name k m), lookup-insert v.name name k m)

-- The recorded positions are the last positions.
abbrev Agree : List EnvVar × Map ℕ → Type 0
Agree state = (name : String) → lookup name state.1 ≡ index_of name state.0

-- What one variable that is put in its place does to the list and to the positions.
place-value_of :
    (v : EnvVar) (state : List EnvVar × Map ℕ) (other : String)
    → Agree state
    → value_of other (place v (lookup v.name state.1) state).0
      ≡ (if v.name == other then some v else value_of other state.0)
unfolding place
place-value_of v (env, indexes) other agree = elim (Option-cases (lookup v.name indexes)) [
  | inl e ↦ rw (e, place) (value_of-append other env v)
  | inr (i, e) ↦ rw (e, place) (value_of-set v.name other env i v (sym (agree v.name) ∙ e) refl)
]

place-Agree :
    (v : EnvVar) (state : List EnvVar × Map ℕ)
    → Agree state
    → Agree (place v (lookup v.name state.1) state)
unfolding place
place-Agree v (env, indexes) agree = elim (Option-cases (lookup v.name indexes)) [
  | inl e ↦
      rw (e, place)
        λ name. ground (
          arith,
          lookup-insert v.name name (length env) indexes,
          index_of-append name env v,
          agree name,
        )
  | inr (i, e) ↦
      rw (e, place)
        λ name. agree name ∙ sym (index_of-set v.name name env i v (sym (agree v.name) ∙ e) refl)
]

env_var-name : (c : GoTrueEnvVar) → (env_var c).name ≡ c.name
unfolding env_var
env_var-name c = ground arith

-- The user's settings that are not the operator's.
abbrev pub permitted : String → List GoTrueEnvVar → Option EnvVar
permitted name configured =
    if is_operator_owned_go_true_env name then none else last_configured name configured

-- One round of the loop.
apply_one-Agree :
    (c : GoTrueEnvVar) (state : List EnvVar × Map ℕ) → Agree state → Agree (apply_one c state)
unfolding apply_one env_var
apply_one-Agree c state agree = elim (Bool-cases (is_operator_owned_go_true_env c.name)) [
  | inl owned ↦ rw owned agree
  | inr free ↦ rw free (rw (env_var-name c) at (place-Agree (env_var c) state agree))
]

apply_one-value_of :
    (c : GoTrueEnvVar) (state : List EnvVar × Map ℕ) (name : String)
    → Agree state
    → value_of name (apply_one c state).0
      ≡ or_else (permitted name (c ∷ [])) (value_of name state.0)
unfolding apply_one env_var
apply_one-value_of c state name agree = elim (Bool-cases (is_operator_owned_go_true_env c.name)) [
  | inl owned ↦ rw (owned, value_of) (ground (arith, eq_iff c.name name))
  | inr free ↦
      rw (free, value_of)
        (rw (env_var-name c) at (place-value_of (env_var c) state name agree)
          ∙ ground (arith, eq_iff c.name name))
]

apply_all-value_of :
    (configured : List GoTrueEnvVar) (state : List EnvVar × Map ℕ) (name : String)
    → Agree state
    → value_of name (apply_all configured state).0
      ≡ or_else (permitted name configured) (value_of name state.0)
unfolding apply_all
apply_all-value_of [] state name agree = ground arith
apply_all-value_of (c ∷ rest) state name agree =
    apply_all-value_of rest (apply_one c state) name (apply_one-Agree c state agree)
    ∙ rw (apply_one-value_of c state name agree) (ground arith)

-- Laying the user's settings over the operator's: for every name, the container sees the
-- operator's variable if the name is operator-owned; otherwise the last of the user's settings of
-- that name if there is one, and the operator's last variable of that name if there is none.
pub value_of-apply_go_true_env :
    (env : List EnvVar) (configured : List GoTrueEnvVar) (name : String)
    → value_of name (apply_go_true_env env configured)
      ≡ or_else (permitted name configured) (value_of name env)
unfolding apply_go_true_env
value_of-apply_go_true_env env configured name =
    apply_all-value_of configured (env, index_env 0 env []) name
      (λ n. ground (arith, lookup-index_env n 0 env []))
