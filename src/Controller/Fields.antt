-- ===== src/Controller/Fields.antt =====
-- `reconcileClusterMutableFields` of internal/controller/supabaseproject_controller.go
pub mod Laws
use cloudnative_supabase.Prelude.{
  String, ◌==◌, Bool, true, false, ◌||◌, Option, none, some, List, [], ◌=ℤ=◌, Result, ok, ◌>>=◌,
  if◌then◌else◌,
}
use cloudnative_supabase.Kube.Cnpg.{
  Cluster, ClusterSpec, StorageConfiguration, ManagedConfiguration, PluginConfiguration,
}
use cloudnative_supabase.Controller.Semantic.{Semantic, replace, replace_set}
use cloudnative_supabase.Controller.Storage.{Quantities, reconcile_storage}
use cloudnative_supabase.Controller.Plugins.{reconcile_barman_plugin}

-- `if desired.Spec.ImageName != "" && existing.Spec.ImageName != desired.Spec.ImageName`
unfoldable pub replace_image : String → String → String × Bool
replace_image existing desired =
    if desired == "" then (existing, false) else replace ◌==◌ existing desired

abbrev no_managed : ManagedConfiguration
no_managed = record { roles = []; rest = "" }

-- `if existing.Spec.Managed == nil { existing.Spec.Managed = &ManagedConfiguration{} }`
unfoldable pub managed_or_new : Option ManagedConfiguration → ManagedConfiguration
managed_or_new none = no_managed
managed_or_new (some managed) = managed

-- `if pluginsChanged { existing.Spec.Plugins = plugins }`
unfoldable pub keep_unchanged :
    List PluginConfiguration → List PluginConfiguration × Bool → List PluginConfiguration × Bool
keep_unchanged existing (plugins, changed) = if changed then (plugins, true) else (existing, false)

module _ (semantic : Semantic) where
  unfoldable pub replace_roles :
      Option ManagedConfiguration → Option ManagedConfiguration → Option ManagedConfiguration × Bool
  replace_roles existing none = (existing, false)
  replace_roles existing (some desired) =
      let managed = managed_or_new existing in
      let roles = replace semantic.roles managed.roles desired.roles in
      (some (record managed { roles = roles.0 }), roles.1)

  -- The assignments after the storage was reconciled.
  unfoldable pub assign_fields :
      ClusterSpec → ClusterSpec → StorageConfiguration × Bool → ClusterSpec × Bool
  assign_fields existing desired storage =
      let instances = replace ◌=ℤ=◌ existing.instances desired.instances in
      let image = replace_image existing.image_name desired.image_name in
      let resources = replace semantic.resources existing.resources desired.resources in
      let superuser =
        replace_set semantic.flag existing.enable_superuser_access
          desired.enable_superuser_access in
      let postgres = existing.postgres_configuration in
      let desired_postgres = desired.postgres_configuration in
      let parameters =
        replace semantic.parameters postgres.parameters desired_postgres.parameters in
      let pg_hba = replace semantic.texts postgres.pg_hba desired_postgres.pg_hba in
      let libraries =
        replace semantic.texts postgres.additional_libraries
          desired_postgres.additional_libraries in
      let affinity =
        replace semantic.flag existing.affinity.enable_pod_anti_affinity
          desired.affinity.enable_pod_anti_affinity in
      let managed = replace_roles existing.managed desired.managed in
      let plugins =
        keep_unchanged existing.plugins
          (reconcile_barman_plugin semantic existing.plugins desired.plugins) in
      (
        record existing {
          storage_configuration = storage.0;
          instances = instances.0;
          image_name = image.0;
          resources = resources.0;
          enable_superuser_access = superuser.0;
          postgres_configuration = record {
            parameters = parameters.0;
            pg_hba = pg_hba.0;
            additional_libraries = libraries.0;
          };
          affinity = record existing.affinity { enable_pod_anti_affinity = affinity.0 };
          managed = managed.0;
          plugins = plugins.0;
        },
        storage.1
            || (instances.1
                || (image.1
                    || (resources.1
                        || (superuser.1
                            || (parameters.1
                                || (pg_hba.1
                                    || (libraries.1
                                        || (affinity.1 || (managed.1 || plugins.1))))))))),
      )

  -- A failure leaves the cluster as it was.
  unfoldable pub reconcile_cluster_mutable_fields :
      {Quantity : Type 0}
      → Quantities Quantity
      → ClusterSpec
      → ClusterSpec
      → Result (ClusterSpec × Bool)
  reconcile_cluster_mutable_fields quantities existing desired =
      reconcile_storage semantic quantities existing.storage_configuration
        desired.storage_configuration
      >>= λ storage. ok (assign_fields existing desired storage)
