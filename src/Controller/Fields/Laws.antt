-- ===== src/Controller/Fields/Laws.antt =====
-- Reconciling a cluster's fields settles.
use cloudnative_supabase.Prelude.{
  ◌≡◌, refl, ap, subst, String, ==_refl, Bool, true, false, Option, none, some, List, ◌=ℤ=◌, ℤ,
  =ℤ=_iff, Result, ok, err, bind_ok, arith,
}
use cloudnative_supabase.Kube.Cnpg.{
  ClusterSpec, StorageConfiguration, ManagedConfiguration, PluginConfiguration,
}
use cloudnative_supabase.Controller.Semantic.{
  Semantic, IsSemantic, replace, replace_again, replace_set_again,
}
use cloudnative_supabase.Controller.Storage.{Quantities, reconcile_storage}
use cloudnative_supabase.Controller.Storage.Laws.{Irreflexive, reconcile_storage_again}
use cloudnative_supabase.Controller.Plugins.{reconcile_barman_plugin}
use cloudnative_supabase.Controller.Plugins.Laws.{
  reconcile_barman_plugin_again, foreign, foreign-reconcile_barman_plugin,
}
use cloudnative_supabase.Controller.Fields.{
  replace_image, managed_or_new, keep_unchanged, replace_roles, assign_fields,
  reconcile_cluster_mutable_fields,
}

=ℤ=-refl : (i : ℤ) → (i =ℤ= i) ≡ true
=ℤ=-refl i = (=ℤ=_iff i i).1 refl

replace_image_again :
    (existing desired : String)
    → replace_image (replace_image existing desired).0 desired
      ≡ ((replace_image existing desired).0, false)
unfolding replace_image replace
replace_image_again existing desired = ground (arith, ==_refl desired)

-- The cluster has the desired instances; what is created once, and the plugins of others, stay.
abbrev pub Keeps : ClusterSpec → ClusterSpec → ClusterSpec → Type 0
Keeps existing desired result =
    (result.instances ≡ desired.instances)
    × (result.bootstrap ≡ existing.bootstrap)
    × (result.external_clusters ≡ existing.external_clusters)
    × (result.rest ≡ existing.rest)
    × (foreign result.plugins ≡ foreign existing.plugins)

-- The specification of a result.
abbrev spec_of : Result (ClusterSpec × Bool) → ClusterSpec → ClusterSpec
spec_of (ok s) other = s.0
spec_of (err _) other = other

module _ (semantic : Semantic) (h : IsSemantic semantic) where
  replace_roles_again :
      (existing desired : Option ManagedConfiguration)
      → replace_roles semantic (replace_roles semantic existing desired).0 desired
        ≡ ((replace_roles semantic existing desired).0, false)
  unfolding replace_roles managed_or_new
  replace_roles_again existing none = refl
  replace_roles_again existing (some desired) =
      rw (replace_again semantic.roles h.roles-refl (managed_or_new existing).roles desired.roles)
        refl

  keep_unchanged_again :
      (existing desired : List PluginConfiguration)
      → let first = keep_unchanged existing (reconcile_barman_plugin semantic existing desired) in
        keep_unchanged first.0 (reconcile_barman_plugin semantic first.0 desired) ≡ (first.0, false)
  unfolding keep_unchanged
  keep_unchanged_again existing desired =
      ground (arith, reconcile_barman_plugin_again semantic existing desired h)

  assign_fields_again :
      (existing desired : ClusterSpec) (storage : StorageConfiguration × Bool)
      → assign_fields semantic
          (assign_fields semantic existing desired storage).0
          desired
          (storage.0, false)
        ≡ ((assign_fields semantic existing desired storage).0, false)
  unfolding assign_fields
  assign_fields_again existing desired storage =
      rw
        (
          replace_again ◌=ℤ=◌ =ℤ=-refl existing.instances desired.instances,
          replace_image_again existing.image_name desired.image_name,
          replace_again semantic.resources h.resources-refl existing.resources desired.resources,
          replace_set_again semantic.flag h.flag-refl existing.enable_superuser_access
              desired.enable_superuser_access,
          replace_again semantic.parameters h.parameters-refl
              existing.postgres_configuration.parameters desired.postgres_configuration.parameters,
          replace_again semantic.texts h.texts-refl existing.postgres_configuration.pg_hba
              desired.postgres_configuration.pg_hba,
          replace_again semantic.texts h.texts-refl
              existing.postgres_configuration.additional_libraries
              desired.postgres_configuration.additional_libraries,
          replace_again semantic.flag h.flag-refl existing.affinity.enable_pod_anti_affinity
              desired.affinity.enable_pod_anti_affinity,
          replace_roles_again existing.managed desired.managed,
          keep_unchanged_again existing.plugins desired.plugins,
        )
        refl

  -- Reconciling the fields of a cluster again, with the result of the first time, changes nothing,
  -- if equality is reflexive and no quantity is below itself.
  pub reconcile_cluster_mutable_fields_again :
      {Quantity : Type 0} (quantities : Quantities Quantity) (existing desired result : ClusterSpec)
      (changed : Bool)
      → Irreflexive quantities
      → reconcile_cluster_mutable_fields semantic quantities existing desired ≡ ok (result, changed)
      → reconcile_cluster_mutable_fields semantic quantities result desired ≡ ok (result, false)
  unfolding reconcile_cluster_mutable_fields assign_fields
  reconcile_cluster_mutable_fields_again quantities existing desired result changed irreflexive e =
      bind_ok
        (reconcile_storage semantic quantities existing.storage_configuration
          desired.storage_configuration)
        (λ storage. ok (assign_fields semantic existing desired storage)) e
        λ storage s g.
          subst
            (λ r. reconcile_cluster_mutable_fields semantic quantities r desired ≡ ok (r, false))
            (ap (λ r. spec_of r existing) g)
            (rw
              (reconcile_storage_again quantities semantic existing.storage_configuration
                desired.storage_configuration storage.0 storage.1 h irreflexive s)
              (ap ok (assign_fields_again existing desired storage)))

module _ (semantic : Semantic) where
  assign_fields-foreign :
      (existing desired : ClusterSpec) (storage : StorageConfiguration × Bool)
      → foreign (assign_fields semantic existing desired storage).0.plugins
        ≡ foreign existing.plugins
  unfolding assign_fields keep_unchanged
  assign_fields-foreign existing desired storage =
      ground (arith, foreign-reconcile_barman_plugin semantic existing.plugins desired.plugins)

  assign_fields-instances :
      (existing desired : ClusterSpec) (storage : StorageConfiguration × Bool)
      → (assign_fields semantic existing desired storage).0.instances ≡ desired.instances
  unfolding assign_fields replace
  assign_fields-instances existing desired storage =
      ground (arith, =ℤ=_iff existing.instances desired.instances)

  pub reconcile_cluster_mutable_fields-Keeps :
      {Quantity : Type 0} (quantities : Quantities Quantity) (existing desired result : ClusterSpec)
      (changed : Bool)
      → reconcile_cluster_mutable_fields semantic quantities existing desired ≡ ok (result, changed)
      → Keeps existing desired result
  unfolding reconcile_cluster_mutable_fields assign_fields
  reconcile_cluster_mutable_fields-Keeps quantities existing desired result changed e =
      bind_ok
        (reconcile_storage semantic quantities existing.storage_configuration
          desired.storage_configuration)
        (λ storage. ok (assign_fields semantic existing desired storage)) e
        λ storage s g.
          subst (λ r. Keeps existing desired r) (ap (λ r. spec_of r existing) g)
            (
              assign_fields-instances existing desired storage,
              refl,
              refl,
              refl,
              assign_fields-foreign existing desired storage,
            )
