-- ===== src/Controller/Backup.antt =====
-- `reconcileBackup`, `reconcileRecovery` and their parts, of
-- internal/controller/supabaseproject_controller.go
use cloudnative_supabase.Prelude.{
  String, ◌<>◌, ◌==◌, none, some, is_some, Result, ok, err, errorf, wrap, Error, List, [], ◌∷◌,
  if◌then◌else◌, Map,
}
use cloudnative_supabase.Prelude.Maps.{lookup}
use cloudnative_supabase.Kube.Meta.{Bytes, ObjectMeta}
use cloudnative_supabase.Api.Database.{BackupSpec, RecoverySpec}
use cloudnative_supabase.Api.Project.{SupabaseProject, label_instance}
use cloudnative_supabase.Common.Names.{
  object_store_name, recovery_object_store_name, scheduled_backup_name,
}
use cloudnative_supabase.Cnpg.Cluster.{enabled_backup, enabled_recovery}
use cloudnative_supabase.Cnpg.Backup.{
  build_object_store, build_scheduled_backup, build_recovery_object_store,
}
use cloudnative_supabase.Controller.Ownership.{label_of}
use cloudnative_supabase.Controller.Apply.Stores.{
  create_or_update_object_store, create_or_update_scheduled_backup,
}
use cloudnative_supabase.Controller.Durable.{in_namespace}
use cloudnative_supabase.Controller.Effects.{
  Effect, ◌>>◌, done, rescue, wrap_error, ignore_not_found, Resource, Client, Machinery,
}
use cloudnative_supabase.Controller.State.{
  State, on_world, with_project, set_condition, remove_condition, update_project_status,
  fail_condition,
}

-- The loop over the required keys.
unfoldable pub check_keys : String → List String → Map Bytes → Result (Unit {0})
check_keys secret_name [] entries = ok tt
check_keys secret_name (key ∷ keys) entries =
    let rest = check_keys secret_name keys entries in
    if is_some (lookup key entries)
    then rest
    else err (errorf ("S3 credentials secret " <> secret_name <> " missing required key: " <> key))

abbrev pub s3_keys : List String
s3_keys = "ACCESS_KEY_ID" ∷ "SECRET_ACCESS_KEY" ∷ []

unfoldable pub validate_s3_secret : {W : Type 0} → Client W → String → String → Effect W (Unit {0})
unfolding check_keys
validate_s3_secret client namespace secret_name world =
    elim (client.secrets.get (record { name = secret_name; namespace = namespace }) world) [
      | ok secret ↦ (check_keys secret_name s3_keys secret.data_, world)
      | err e ↦
          if e.is_not_found
          then (err (errorf ("S3 credentials secret " <> secret_name <> " not found")), world)
          else (err (wrap ("failed to get S3 credentials secret " <> secret_name) e), world)
    ]

-- The deletion of an object that carries the label of the project. `kind` is what the messages say.
unfoldable pub delete_labelled :
    {W A : Type 0}
    → String
    → Resource W A
    → (A → ObjectMeta)
    → SupabaseProject
    → String
    → Effect W (Unit {0})
delete_labelled kind resource meta_of project name world =
    elim (resource.get (in_namespace project name) world) [
      | ok existing ↦
          if label_of label_instance (meta_of existing).labels == project.name
          then wrap_error ("failed to delete " <> kind)
              (ignore_not_found (resource.delete existing)) world
          else (
            err (
                errorf (
                  "refusing to delete "
                  <> kind
                  <> " "
                  <> name
                  <> " with instance label \""
                  <> label_of label_instance (meta_of existing).labels
                  <> "\"")),
            world,
          )
      | err e ↦
          if e.is_not_found
          then (ok tt, world)
          else (err (wrap ("failed to get " <> kind) e), world)
    ]

module _ {W : Type 0} (machinery : Machinery) (client : Client W) where
  -- Nothing is deleted if the condition was never set.
  unfoldable pub cleanup_backup_resources : Effect (State W) (Unit {0})
  unfolding update_project_status
  cleanup_backup_resources = with_project λ project.
      if is_some (machinery.find_status_condition "BackupReady" project.status.conditions)
      then (on_world (
            delete_labelled "ScheduledBackup" client.scheduled_backups (λ b. b.meta) project
              (scheduled_backup_name project))
          >> on_world (
              delete_labelled "ObjectStore" client.object_stores (λ s. s.meta) project
                (object_store_name project))
          >> remove_condition machinery "BackupReady"
          >> update_project_status machinery client)
      else done

  unfoldable pub cleanup_recovery_resources : Effect (State W) (Unit {0})
  unfolding update_project_status
  cleanup_recovery_resources = with_project λ project.
      if is_some (machinery.find_status_condition "RecoveryReady" project.status.conditions)
      then (on_world (
            delete_labelled "recovery ObjectStore" client.object_stores (λ s. s.meta) project
              (recovery_object_store_name project))
          >> remove_condition machinery "RecoveryReady"
          >> update_project_status machinery client)
      else done

  abbrev pub fail_backup : String → Error → Effect (State W) (Unit {0})
  fail_backup = fail_condition machinery client "BackupReady"

  abbrev pub fail_recovery : String → Error → Effect (State W) (Unit {0})
  fail_recovery = fail_condition machinery client "RecoveryReady"

  unfoldable pub apply_backup : SupabaseProject → BackupSpec → Effect (State W) (Unit {0})
  apply_backup project backup =
      rescue (on_world (validate_s3_secret client project.namespace backup.s3_credentials_secret))
        (fail_backup "SecretError")
      >> rescue
          (on_world (
            create_or_update_object_store machinery client.object_stores
              (build_object_store project)))
          (fail_backup "ObjectStoreFailed")
      >> rescue
          (on_world (
            create_or_update_scheduled_backup machinery client.scheduled_backups
              (build_scheduled_backup project)))
          (fail_backup "ScheduledBackupFailed")
      >> set_condition machinery "BackupReady" "True" "BackupConfigured"
          "Backup infrastructure is ready"
      >> update_project_status machinery client

  unfoldable pub reconcile_backup : Effect (State W) (Unit {0})
  unfolding cleanup_backup_resources apply_backup
  reconcile_backup = with_project λ project. elim (enabled_backup project.spec.database.backup) [
    | none ↦ cleanup_backup_resources
    | some backup ↦ apply_backup project backup
  ]

  unfoldable pub apply_recovery : SupabaseProject → RecoverySpec → Effect (State W) (Unit {0})
  apply_recovery project recovery =
      rescue (on_world (validate_s3_secret client project.namespace recovery.s3_credentials_secret))
        (fail_recovery "SecretError")
      >> rescue
          (on_world (
            create_or_update_object_store machinery client.object_stores
              (build_recovery_object_store project)))
          (fail_recovery "ObjectStoreFailed")
      >> set_condition machinery "RecoveryReady" "True" "RecoveryConfigured"
          "Recovery infrastructure is ready"
      >> update_project_status machinery client

  unfoldable pub reconcile_recovery : Effect (State W) (Unit {0})
  unfolding cleanup_recovery_resources apply_recovery
  reconcile_recovery = with_project λ project.
      elim (enabled_recovery project.spec.database.recovery) [
        | none ↦ cleanup_recovery_resources
        | some recovery ↦ apply_recovery project recovery
      ]

  unfoldable pub reconcile_backup_infrastructure : Effect (State W) (Unit {0})
  unfolding reconcile_backup reconcile_recovery
  reconcile_backup_infrastructure = reconcile_backup >> reconcile_recovery
