-- ===== src/Controller/Apply/Laws.antt =====
-- What the create-or-update steps write: internal/controller.
use cloudnative_supabase.Prelude.{◌≡◌, refl, ◌⊎◌, inl, inr, List, ok, Result-cases, Bool-cases}
use cloudnative_supabase.Kube.Meta.{OwnerReference}
use cloudnative_supabase.Kube.Core.{Secret}
use cloudnative_supabase.Api.Project.{SupabaseProject}
use cloudnative_supabase.Controller.Apply.Secrets.{adopt_secret, create_or_update_secret}
use cloudnative_supabase.Controller.Effects.{
  Resource, Machinery, own, create_or, attempt, key_of, ◌>>=◌, lift, done,
}

module _ {W : Type 0} (machinery : Machinery) where
  -- A Secret that is there is either left alone, with all of the server, or written with its own
  -- data, type and labels: nothing but its owners is new.
  pub create_or_update_secret_keeps_data :
      (secrets : Resource W Secret) (project : SupabaseProject) (secret existing : Secret)
      (world : W)
      → secrets.get (key_of secret.meta) world ≡ ok existing
      → ((create_or_update_secret machinery secrets project secret world).1 ≡ world)
        ⊎ ((owners : List OwnerReference) × (create_or_update_secret machinery secrets project
                secret world
              ≡ secrets.update
                  (record existing { meta = record existing.meta { owner_references = owners } })
                  world))
  unfolding create_or_update_secret adopt_secret create_or attempt own lift done ◌>>=◌
  create_or_update_secret_keeps_data secrets project secret existing world h =
      elim (Result-cases (
        machinery.set_controller_reference project (key_of secret.meta)
          secret.meta.owner_references)) [
            | inr (e, f) ↦ inl (rw f refl)
            | inl (owned, f) ↦
                elim (Result-cases (
                  machinery.set_controller_reference project (key_of existing.meta)
                    existing.meta.owner_references)) [
                      | inr (e, g) ↦ inl (rw (f, attempt, h, g) refl)
                      | inl (owners, g) ↦
                          elim (Bool-cases
                            (machinery.equal.owners existing.meta.owner_references owners)) [
                              | inl b ↦ inl (rw (f, attempt, h, g, b) refl)
                              | inr b ↦ inr (owners, rw (f, attempt, h, g, b) refl)
                            ]
                    ]
          ]
