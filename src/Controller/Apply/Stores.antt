-- ===== src/Controller/Apply/Stores.antt =====
-- `createOrUpdateObjectStore` and `createOrUpdateScheduledBackup` of
-- internal/controller/supabaseproject_controller.go
use cloudnative_supabase.Prelude.{
  String, ◌<>◌, ◌==◌, Bool, ◌||◌, ◌&&◌, not, Option, none, some, is_some, ok, err, errorf, wrap,
  if◌then◌else◌,
}
use cloudnative_supabase.Kube.Meta.{ObjectMeta}
use cloudnative_supabase.Kube.Cnpg.{ObjectStore, ScheduledBackup, BarmanObjectStoreConfiguration}
use cloudnative_supabase.Api.Project.{label_instance}
use cloudnative_supabase.Controller.Ownership.{
  label_of, merge_labels, remove_supabase_project_owner_reference,
}
use cloudnative_supabase.Controller.Effects.{
  Effect, lift, done, Resource, Machinery, wrap_error, key_of,
}

-- `if desired != nil { current = desired }`
abbrev pub or_else : {A : Type 0} → Option A → Option A → Option A
or_else none current = current
or_else (some desired) current = some desired

-- `Get`, then `Create` if there is none, and `next` on what there is, each error with its context.
unfoldable pub create_or_wrapped :
    {W A : Type 0}
    → String
    → Resource W A
    → ObjectMeta
    → A
    → (A → Effect W (Unit {0}))
    → Effect W (Unit {0})
create_or_wrapped kind resource meta desired next world = elim (resource.get (key_of meta) world) [
  | ok existing ↦ next existing world
  | err e ↦
      if e.is_not_found
      then wrap_error ("failed to create " <> kind) (resource.create desired) world
      else (err (wrap ("failed to get " <> kind) e), world)
]

-- The guard of the labels, and `next` with the name of the project.
unfoldable pub guard_instance :
    {W : Type 0}
    → String
    → ObjectMeta
    → ObjectMeta
    → (String → Effect W (Unit {0}))
    → Effect W (Unit {0})
guard_instance kind desired existing next =
    let project_name = label_of label_instance desired.labels in
    let instance = label_of label_instance existing.labels in
    if project_name == ""
    then lift (err (errorf (kind <> " " <> existing.name <> " has no project instance label")))
    else if instance == project_name
    then next project_name
    else lift (
        err (
          errorf (
            kind <> " " <> existing.name <> " has instance label \"" <> instance
            <> "\", expected \"" <> project_name <> "\"")))

module _ (machinery : Machinery) where
  -- The metadata without the owner, and with the labels of the desired object.
  unfoldable pub release : ObjectMeta → ObjectMeta → String → ObjectMeta × Bool
  release existing desired project_name =
      let owners =
        remove_supabase_project_owner_reference machinery.parse_group existing.owner_references
          project_name in
      let labels = merge_labels existing.labels desired.labels in
      (record existing { owner_references = owners.0; labels = labels.0 }, labels.1 || owners.1)

  unfoldable pub configuration_changed :
      BarmanObjectStoreConfiguration → BarmanObjectStoreConfiguration → Bool
  configuration_changed current desired =
      not (machinery.equal.credentials current.barman_credentials desired.barman_credentials)
      || (not (current.endpoint_url == desired.endpoint_url)
          || (not (current.destination_path == desired.destination_path)
              || (is_some desired.wal && not (machinery.equal.wal current.wal desired.wal)
                  || is_some desired.data_
                    && not (machinery.equal.data_backup current.data_ desired.data_))))

  -- The fields of the operator; the rest belongs to the API.
  unfoldable pub merge_configuration :
      BarmanObjectStoreConfiguration
      → BarmanObjectStoreConfiguration
      → BarmanObjectStoreConfiguration
  merge_configuration current desired = record current {
    barman_credentials = desired.barman_credentials;
    endpoint_url = desired.endpoint_url;
    destination_path = desired.destination_path;
    wal = or_else desired.wal current.wal;
    data_ = or_else desired.data_ current.data_;
  }

  -- The store as it is written, and whether it is.
  unfoldable pub merge_object_store : ObjectStore → ObjectStore → String → ObjectStore × Bool
  unfolding release configuration_changed merge_configuration
  merge_object_store existing desired project_name =
      let released = release existing.meta desired.meta project_name in
      (
        record existing {
          meta = released.0;
          configuration = merge_configuration existing.configuration desired.configuration;
          retention_policy = desired.retention_policy;
        },
        released.1
            || (configuration_changed existing.configuration desired.configuration
                || not (existing.retention_policy == desired.retention_policy)),
      )

  unfoldable pub owned_spec_changed : ScheduledBackup → ScheduledBackup → Bool
  owned_spec_changed existing desired =
      not (existing.schedule == desired.schedule)
      || (not (machinery.equal.cluster existing.cluster desired.cluster)
          || (not (existing.backup_owner_reference == desired.backup_owner_reference)
              || (not (existing.method == desired.method)
                  || not (
                      machinery.equal.plugin existing.plugin_configuration
                        desired.plugin_configuration))))

  unfoldable pub merge_scheduled_backup :
      ScheduledBackup → ScheduledBackup → String → ScheduledBackup × Bool
  unfolding release owned_spec_changed
  merge_scheduled_backup existing desired project_name =
      let released = release existing.meta desired.meta project_name in
      (
        record existing {
          meta = released.0;
          schedule = desired.schedule;
          cluster = desired.cluster;
          backup_owner_reference = desired.backup_owner_reference;
          method = desired.method;
          plugin_configuration = desired.plugin_configuration;
        },
        released.1 || owned_spec_changed existing desired,
      )

-- `if !changed { return nil }`, and the update.
unfoldable pub update_changed :
    {W A : Type 0} → String → Resource W A → A × Bool → Effect W (Unit {0})
update_changed kind resource merged =
    if merged.1 then wrap_error ("failed to update " <> kind) (resource.update merged.0) else done

module _ {W : Type 0} (machinery : Machinery) where
  unfoldable pub create_or_update_object_store :
      Resource W ObjectStore → Option ObjectStore → Effect W (Unit {0})
  create_or_update_object_store stores none = done
  create_or_update_object_store stores (some desired) =
      create_or_wrapped "ObjectStore" stores desired.meta desired λ existing.
        guard_instance "ObjectStore" desired.meta existing.meta λ project_name.
          update_changed "ObjectStore" stores
            (merge_object_store machinery existing desired project_name)

  unfoldable pub create_or_update_scheduled_backup :
      Resource W ScheduledBackup → Option ScheduledBackup → Effect W (Unit {0})
  create_or_update_scheduled_backup backups none = done
  create_or_update_scheduled_backup backups (some desired) =
      create_or_wrapped "ScheduledBackup" backups desired.meta desired λ existing.
        guard_instance "ScheduledBackup" desired.meta existing.meta λ project_name.
          update_changed "ScheduledBackup" backups
            (merge_scheduled_backup machinery existing desired project_name)
