-- ===== src/Cnpg/Roles/Laws.antt =====
-- What the roles of a cluster may do.
use cloudnative_supabase.Prelude.{
  ◌≡◌, refl, ap, ◌==◌, Bool, true, false, ◌&&◌, not, List, [], ◌∷◌, ◌++◌, negsuc, arith, All,
  is_some, if◌then◌else◌, Bool-cases, inl, inr,
}
use cloudnative_supabase.Kube.Cnpg.{RoleConfiguration}
use cloudnative_supabase.Api.Status.{SecretNamesStatus}
use cloudnative_supabase.Api.Project.{SupabaseProject}
use cloudnative_supabase.Cnpg.Roles.{
  apply_generated_role_defaults, base_roles, build_roles, build_powersync_roles, build_all_roles,
}

-- A role without privileges over the whole server: it is no superuser, and it may log in exactly if
-- it has a password Secret.
abbrev pub IsRestrained : RoleConfiguration → Type 0
IsRestrained role = (role.superuser ≡ false) × (role.login ≡ is_some role.password_secret)

-- Such a role, with no limit of connections and an inheritance that is said.
abbrev pub IsGenerated : RoleConfiguration → Type 0
IsGenerated role =
    (role.connection_limit ≡ negsuc 0) × (is_some role.inherit ≡ true) × IsRestrained role

apply_generated_role_defaults-All :
    (roles : List RoleConfiguration)
    → All IsRestrained roles
    → All IsGenerated (apply_generated_role_defaults roles)
unfolding apply_generated_role_defaults
apply_generated_role_defaults-All [] h = tt
apply_generated_role_defaults-All (role ∷ roles) (h, hs) =
    ((refl, ground arith, h), apply_generated_role_defaults-All roles hs)

base_roles-All : (secret_names : SecretNamesStatus) → All IsRestrained (base_roles secret_names)
unfolding base_roles
base_roles-All secret_names = (
  (refl, refl),
  (
    (refl, refl),
    ((refl, refl), ((refl, refl), ((refl, refl), ((refl, refl), ((refl, refl), tt))))),
  ),
)

abbrev pub wants_powersync_roles : SupabaseProject → SecretNamesStatus → Bool
wants_powersync_roles project secret_names =
    is_some project.spec.powersync
    && (not (secret_names.powersync_storage_password == "")
        && not (secret_names.powersync_replication_password == ""))

-- The roles that PowerSync adds.
abbrev pub powersync_part : SupabaseProject → SecretNamesStatus → List RoleConfiguration
powersync_part project secret_names =
    if wants_powersync_roles project secret_names then build_powersync_roles secret_names else []

build_powersync_roles-All :
    (secret_names : SecretNamesStatus) → All IsGenerated (build_powersync_roles secret_names)
unfolding build_powersync_roles
build_powersync_roles-All secret_names =
    ((refl, refl, (refl, refl)), ((refl, refl, (refl, refl)), tt))

powersync_part-All :
    (project : SupabaseProject) (secret_names : SecretNamesStatus)
    → All IsGenerated (powersync_part project secret_names)
powersync_part-All project secret_names =
    elim (Bool-cases (wants_powersync_roles project secret_names)) [
      | inl e ↦ rw e (build_powersync_roles-All secret_names)
      | inr e ↦ rw e tt
    ]

append_assoc : (xs ys zs : List RoleConfiguration) → ((xs ++ ys) ++ zs) ≡ xs ++ (ys ++ zs)
append_assoc [] ys zs = refl
append_assoc (x ∷ xs) ys zs = ap (x ∷◌) (append_assoc xs ys zs)

append_nil : (xs : List RoleConfiguration) → (xs ++ []) ≡ xs
append_nil [] = refl
append_nil (x ∷ xs) = ap (x ∷◌) (append_nil xs)

-- The roles of a cluster are the operator's, then the user's additional roles as they stand, then,
-- exactly if the project has PowerSync and the names of its two password Secrets are known,
-- PowerSync's. Each of the operator's and of PowerSync's has no limit of connections, an inheritance
-- that is said, no superuser rights, and may log in exactly if it has a password Secret.
pub build_all_roles-IsGenerated :
    (project : SupabaseProject) (secret_names : SecretNamesStatus)
    → let generated = apply_generated_role_defaults (base_roles secret_names) in
      let added = powersync_part project secret_names in
      (build_all_roles project secret_names
        ≡ generated ++ (project.spec.database.additional_roles ++ added))
      × All IsGenerated generated
      × All IsGenerated added
unfolding build_all_roles build_roles
build_all_roles-IsGenerated project secret_names = (
  elim (Bool-cases (wants_powersync_roles project secret_names)) [
    | inl e ↦ rw e (
        append_assoc (apply_generated_role_defaults (base_roles secret_names))
          project.spec.database.additional_roles (build_powersync_roles secret_names))
    | inr e ↦ rw (e, append_nil) refl
  ],
  apply_generated_role_defaults-All (base_roles secret_names) (base_roles-All secret_names),
  powersync_part-All project secret_names,
)
