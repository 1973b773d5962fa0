-- ===== src/Controller/Readiness/Laws.antt =====
-- What readiness says, and which projects are woken.
use cloudnative_supabase.Prelude.{
  ◌≡◌, refl, ◌∙◌, ◌↔◌, ◌⊎◌, inl, inr, String, eq_iff, true, Option, none, some, List, [], ◌∷◌, ℤ,
  pos, =ℤ=_iff, ok, arith,
}
use cloudnative_supabase.Kube.Meta.{NamespacedName}
use cloudnative_supabase.Kube.Core.{Deployment}
use cloudnative_supabase.Kube.Cnpg.{ClusterStatus}
use cloudnative_supabase.Api.Project.{SupabaseProject}
use cloudnative_supabase.Controller.Readiness.{
  expected_replicas, deployment_is_ready, elements, contains, power_sync_managed_roles_ready,
  map_project_credentials_secret_to_projects,
}

-- The number of replicas that a deployment asks for: one, if it says none.
abbrev pub Asks : Option ℤ → ℤ → Type 0
Asks replicas n = (replicas ≡ some n) ⊎ ((replicas ≡ none) × (n ≡ pos 1))

-- The latest version was observed, and all the replicas that the deployment asks for are of that
-- version, ready and available.
abbrev pub IsRolledOut : Deployment → Type 0
IsRolledOut deployment =
    (deployment.status.observed_generation ≡ deployment.meta.generation)
    × (n : ℤ) × Asks deployment.replicas n
    × (deployment.status.updated_replicas ≡ n)
    × (deployment.status.ready_replicas ≡ n)
    × (deployment.status.available_replicas ≡ n)
    × (deployment.status.unavailable_replicas ≡ pos 0)

expected_replicas_asked : (replicas : Option ℤ) → Asks replicas (expected_replicas replicas)
expected_replicas_asked none = inr (refl, refl)
expected_replicas_asked (some n) = inl refl

asked_unique : (replicas : Option ℤ) (n : ℤ) → Asks replicas n → n ≡ expected_replicas replicas
asked_unique none n (inl e) = cc
asked_unique none n (inr (e, f)) = f
asked_unique (some m) n (inl e) = cc
asked_unique (some m) n (inr (e, f)) = cc

pub deployment_is_ready_iff :
    (deployment : Deployment) → (deployment_is_ready deployment ≡ true) ↔ IsRolledOut deployment
unfolding deployment_is_ready
deployment_is_ready_iff deployment =
    let status = deployment.status in
    let expected = expected_replicas deployment.replicas in
    let (there, back) : (deployment_is_ready deployment ≡ true) ↔ (
        (status.observed_generation ≡ deployment.meta.generation)
        × (status.updated_replicas ≡ expected)
        × (status.ready_replicas ≡ expected)
        × (status.available_replicas ≡ expected)
        × (status.unavailable_replicas ≡ pos 0)) =
      ground (
        arith,
        =ℤ=_iff status.observed_generation deployment.meta.generation,
        =ℤ=_iff status.updated_replicas expected,
        =ℤ=_iff status.ready_replicas expected,
        =ℤ=_iff status.available_replicas expected,
        =ℤ=_iff status.unavailable_replicas (pos 0),
      ) in
    (
      λ h.
          let (g, u, r, a, z) = there h in
          (g, expected, expected_replicas_asked deployment.replicas, u, r, a, z),
      λ (g, n, asks, u, r, a, z).
          let e = asked_unique deployment.replicas n asks in back (g, u ∙ e, r ∙ e, a ∙ e, z),
    )

abbrev pub Member : {A : Type 0} → A → List A → Type 0
Member a [] = ⊥
Member a (b ∷ more) = (b ≡ a) ⊎ Member a more

contains_iff :
    (name : String) (names : List String) → (contains name names ≡ true) ↔ Member name names
contains_iff name [] = ground arith
contains_iff name (n ∷ names) = ground (arith, contains_iff name names, eq_iff n name)

-- The roles of PowerSync are ready exactly when CloudNativePG reports no reason against either of
-- them and lists both among the reconciled ones.
pub power_sync_managed_roles_ready_iff :
    (status : ClusterStatus)
    → (power_sync_managed_roles_ready status ≡ ok true) ↔ (
        (elements "powersync_storage" status.cannot_reconcile ≡ [])
        × (elements "powersync_replication" status.cannot_reconcile ≡ [])
        × Member "powersync_storage" (elements "reconciled" status.roles_by_status)
        × Member "powersync_replication" (elements "reconciled" status.roles_by_status))
unfolding power_sync_managed_roles_ready
power_sync_managed_roles_ready_iff status = ground (
  arith,
  contains_iff "powersync_storage" (elements "reconciled" status.roles_by_status),
  contains_iff "powersync_replication" (elements "reconciled" status.roles_by_status),
)

abbrev pub Woken : String → NamespacedName → List SupabaseProject → Type 0
Woken secret request [] = ⊥
Woken secret request (project ∷ projects) =
    ((project.spec.project_credentials_secret ≡ secret)
      × (record { name = project.name; namespace = project.namespace } ≡ request))
    ⊎ Woken secret request projects

-- A Secret wakes exactly the listed projects that refer to it as their credentials.
pub map_project_credentials_secret_to_projects_iff :
    (projects : List SupabaseProject) (secret : String) (request : NamespacedName)
    → Member request (map_project_credentials_secret_to_projects projects secret)
      ↔ Woken secret request projects
unfolding map_project_credentials_secret_to_projects
map_project_credentials_secret_to_projects_iff [] secret request = ground arith
map_project_credentials_secret_to_projects_iff (project ∷ projects) secret request = ground (
  arith,
  map_project_credentials_secret_to_projects_iff projects secret request,
  eq_iff project.spec.project_credentials_secret secret,
)
