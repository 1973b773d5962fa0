-- ===== src/Prelude/Maps.antt =====
-- A Go map with text keys, as a list of pairs. `insert` is `m[k] = v`, `lookup` is `v, ok := m[k]`.
use Prim.Native.String.{String}
use mathlib.Core.Path.{◌≡◌, refl}
use mathlib.Core.Option.{Option, none, some}
use mathlib.Core.List.{List, [], ◌∷◌}
use native.Mathlib.Omega.{arith}
use text.Mathlib.Text.{◌==◌}
use text.Mathlib.TextEquality.{eq_iff}
use cloudnative_supabase.Prelude.Tests.{if◌then◌else◌}

abbrev pub Map {ℓ} : Type ℓ → Type ℓ
Map V = List (String × V)

module _ {ℓ} {V : Type ℓ} where
  unfoldable pub lookup : String → Map V → Option V
  lookup key [] = none
  lookup key ((found, value) ∷ more) = if found == key then some value else lookup key more

  unfoldable pub insert : String → V → Map V → Map V
  insert key value [] = (key, value) ∷ []
  insert key value ((found, old) ∷ more) =
      if found == key then (key, value) ∷ more else (found, old) ∷ insert key value more

  -- `for k, v := range entries { m[k] = v }`
  unfoldable pub insert_all : Map V → Map V → Map V
  insert_all [] m = m
  insert_all ((k, v) ∷ entries) m = insert_all entries (insert k v m)

  pub lookup-insert :
      (key other : String) (value : V) (m : Map V)
      → lookup other (insert key value m) ≡ (if key == other then some value else lookup other m)
  unfolding lookup insert
  lookup-insert key other value [] = refl
  lookup-insert key other value ((found, old) ∷ more) = ground (
    arith,
    lookup-insert key other value more,
    eq_iff key other,
    eq_iff found key,
    eq_iff found other,
  )
