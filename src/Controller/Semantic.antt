-- ===== src/Controller/Semantic.antt =====
-- `apiequality.Semantic.DeepEqual`, at the types that internal/controller compares with it, and the
-- assignment that it guards.
use cloudnative_supabase.Prelude.{
  ◌≡◌, refl, Bool, true, false, Option, none, some, List, Map, String, arith, if◌then◌else◌,
}
use cloudnative_supabase.Kube.Core.{LocalObjectReference, ResourceRequirements}
use cloudnative_supabase.Kube.Cnpg.{
  RoleConfiguration, PluginConfiguration, SqlRefs, BootstrapRecovery,
}

-- `recoveryExternalClusterIdentityFields`
pub record RecoveryExternalClusterIdentityFields : Type 0 where
  pub name : String
  pub plugin_name : String
  pub barman_object_name : String
  pub server_name : String

pub record Semantic : Type 0 where
  pub flag : Option Bool → Option Bool → Bool
  pub text : Option String → Option String → Bool
  pub texts : List String → List String → Bool
  pub parameters : Map String → Map String → Bool
  pub resources : ResourceRequirements → ResourceRequirements → Bool
  pub roles : List RoleConfiguration → List RoleConfiguration → Bool
  pub plugin : PluginConfiguration → PluginConfiguration → Bool
  pub secret : Option LocalObjectReference → Option LocalObjectReference → Bool
  pub sql_refs : Option SqlRefs → Option SqlRefs → Bool
  pub recovery : BootstrapRecovery → BootstrapRecovery → Bool
  pub identity :
      RecoveryExternalClusterIdentityFields → RecoveryExternalClusterIdentityFields → Bool

-- A value equals itself.
abbrev pub Reflexive : {A : Type 0} → (A → A → Bool) → Type 0
Reflexive {A} equal = (a : A) → equal a a ≡ true

pub record IsSemantic (semantic : Semantic) : Type 0 where
  pub flag-refl : Reflexive semantic.flag
  pub text-refl : Reflexive semantic.text
  pub texts-refl : Reflexive semantic.texts
  pub parameters-refl : Reflexive semantic.parameters
  pub resources-refl : Reflexive semantic.resources
  pub roles-refl : Reflexive semantic.roles
  pub plugin-refl : Reflexive semantic.plugin
  pub secret-refl : Reflexive semantic.secret
  pub sql_refs-refl : Reflexive semantic.sql_refs
  pub recovery-refl : Reflexive semantic.recovery
  pub identity-refl : Reflexive semantic.identity

-- `if !equal(existing, desired) { existing = desired; changed = true }`
unfoldable pub replace : {A : Type 0} → (A → A → Bool) → A → A → A × Bool
replace equal existing desired =
    if equal existing desired then (existing, false) else (desired, true)

-- The same under `if desired != nil`.
unfoldable pub replace_set :
    {A : Type 0} → (Option A → Option A → Bool) → Option A → Option A → Option A × Bool
unfolding replace
replace_set equal existing none = (existing, false)
replace_set equal existing (some desired) = replace equal existing (some desired)

pub replace_again :
    {A : Type 0} (equal : A → A → Bool)
    → Reflexive equal
    → (existing desired : A)
    → replace equal (replace equal existing desired).0 desired
      ≡ ((replace equal existing desired).0, false)
unfolding replace
replace_again equal refl_of existing desired = ground (arith, refl_of desired)

pub replace_set_again :
    {A : Type 0} (equal : Option A → Option A → Bool)
    → Reflexive equal
    → (existing desired : Option A)
    → replace_set equal (replace_set equal existing desired).0 desired
      ≡ ((replace_set equal existing desired).0, false)
unfolding replace_set
replace_set_again equal refl_of existing none = refl
replace_set_again equal refl_of existing (some desired) =
    replace_again equal refl_of existing (some desired)

pub replace-unchanged :
    {A : Type 0} (equal : A → A → Bool) (existing desired : A)
    → (replace equal existing desired).1 ≡ false
    → (replace equal existing desired).0 ≡ existing
unfolding replace
replace-unchanged equal existing desired h = ground arith

pub replace_set-unchanged :
    {A : Type 0} (equal : Option A → Option A → Bool) (existing desired : Option A)
    → (replace_set equal existing desired).1 ≡ false
    → (replace_set equal existing desired).0 ≡ existing
unfolding replace_set
replace_set-unchanged equal existing none h = refl
replace_set-unchanged equal existing (some desired) h =
    replace-unchanged equal existing (some desired) h
