-- ===== src/Controller/Powersync/Laws.antt =====
-- What the clean-up of PowerSync may delete: internal/controller.
use cloudnative_supabase.Prelude.{
  ◌≡◌, refl, ◌⊎◌, inl, inr, true, Result, ok, err, if◌then◌else◌, Result-cases, Bool-cases, arith,
}
use cloudnative_supabase.Kube.Meta.{NamespacedName, ObjectMeta}
use cloudnative_supabase.Api.Project.{SupabaseProject}
use cloudnative_supabase.Controller.Effects.{
  Effect, Resource, Machinery, ignore_not_found, rescue, resume, lift, done,
}
use cloudnative_supabase.Controller.Powersync.{delete_power_sync_owned_resource}

ignore_not_found_state :
    {W : Type 0} (m : Effect W (Unit {0})) (world : W) → (ignore_not_found m world).1 ≡ (m world).1
unfolding rescue lift done
ignore_not_found_state {W} m world = go (m world)
  where
    go :
        (outcome : Result (Unit {0}) × W)
        → (resume outcome (λ e. if e.is_not_found then done else lift (err e))).1 ≡ outcome.1
    go (ok tt, after) = refl
    go (err e, after) = ground arith

-- The server after the step is the server before it, or the one after the deletion of the object of
-- that name, and then that object is there and the project controls it.
pub delete_power_sync_owned_resource_controlled :
    {W A : Type 0} (machinery : Machinery) (resource : Resource W A) (meta_of : A → ObjectMeta)
    (project : SupabaseProject) (key : NamespacedName) (world : W)
    → ((delete_power_sync_owned_resource machinery resource meta_of project key world).1 ≡ world)
      ⊎ ((existing : A) × (resource.get key world ≡ ok existing)
          × (machinery.is_controlled_by (meta_of existing).owner_references project ≡ true)
          × ((delete_power_sync_owned_resource machinery resource meta_of project key world).1
              ≡ (resource.delete existing world).1))
unfolding delete_power_sync_owned_resource rescue lift done
delete_power_sync_owned_resource_controlled machinery resource meta_of project key world =
    elim (Result-cases (resource.get key world)) [
      | inl (existing, e) ↦
          elim (Bool-cases
            (machinery.is_controlled_by (meta_of existing).owner_references project)) [
              | inl c ↦ inr (
                existing,
                e,
                c,
                rw (e, c, delete_power_sync_owned_resource)
                    (ignore_not_found_state (resource.delete existing) world),
              )
              | inr c ↦ inl (rw (e, c, delete_power_sync_owned_resource) refl)
            ]
      | inr (error, e) ↦ inl (rw (e, delete_power_sync_owned_resource) refl)
    ]
