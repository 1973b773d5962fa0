-- ===== src/Controller/Durable.antt =====
-- `reconcileDurableMetadataProtection` and `validateRecoveryBootstrapIntent` of
-- internal/controller/supabaseproject_controller.go
use cloudnative_supabase.Prelude.{
  String, ◌<>◌, ◌==◌, List, none, some, ok, err, errorf, wrap, if◌then◌else◌,
}
use cloudnative_supabase.Kube.Meta.{NamespacedName, ObjectMeta, OwnerReference}
use cloudnative_supabase.Kube.Cnpg.{Cluster, ObjectStore, ScheduledBackup}
use cloudnative_supabase.Api.Project.{SupabaseProject, label_instance}
use cloudnative_supabase.Common.Names.{
  cluster_name, object_store_name, recovery_object_store_name, scheduled_backup_name,
}
use cloudnative_supabase.Cnpg.Cluster.{build_cluster, enabled_recovery}
use cloudnative_supabase.Cnpg.Backup.{recovery_object_store}
use cloudnative_supabase.Controller.Semantic.{Semantic}
use cloudnative_supabase.Controller.Recovery.{
  recovery_bootstrap_intent_changed, recovery_object_store_identity_changed,
}
use cloudnative_supabase.Controller.Ownership.{label_of, remove_supabase_project_owner_reference}
use cloudnative_supabase.Controller.Effects.{
  Effect, ◌>>◌, lift, done, wrap_error, Resource, Client, Machinery, key_of,
}

abbrev pub key_text : NamespacedName → String
key_text key = key.namespace <> "/" <> key.name

abbrev pub in_namespace : SupabaseProject → String → NamespacedName
in_namespace project name = record { name = name; namespace = project.namespace }

abbrev pub with_owners : ObjectMeta → List OwnerReference → ObjectMeta
with_owners meta owners = record meta { owner_references = owners }

abbrev pub cluster_with : Cluster → ObjectMeta → Cluster
cluster_with cluster meta = record cluster { meta = meta }

abbrev pub store_with : ObjectStore → ObjectMeta → ObjectStore
store_with store meta = record store { meta = meta }

abbrev pub backup_with : ScheduledBackup → ObjectMeta → ScheduledBackup
backup_with backup meta = record backup { meta = meta }

module _ {W : Type 0} (machinery : Machinery) where
  -- What happens to a durable object that is there.
  unfoldable pub release_owner :
      {A : Type 0}
      → Resource W A
      → (A → ObjectMeta)
      → (A → ObjectMeta → A)
      → SupabaseProject
      → NamespacedName
      → A
      → Effect W (Unit {0})
  release_owner resource meta_of with_meta project key durable =
      let meta = meta_of durable in
      let owners =
        remove_supabase_project_owner_reference machinery.parse_group meta.owner_references
          project.name in
      if label_of label_instance meta.labels == project.name
      then if owners.1
        then wrap_error ("removing SupabaseProject owner from durable resource " <> key_text key)
            (resource.update (with_meta durable (with_owners meta owners.0)))
        else done
      else done

  -- One round of the loop.
  unfoldable pub protect :
      {A : Type 0}
      → Resource W A
      → (A → ObjectMeta)
      → (A → ObjectMeta → A)
      → SupabaseProject
      → NamespacedName
      → Effect W (Unit {0})
  unfolding release_owner
  protect resource meta_of with_meta project key world = elim (resource.get key world) [
    | ok durable ↦ release_owner resource meta_of with_meta project key durable world
    | err e ↦
        if e.is_not_found
        then (ok tt, world)
        else (err (wrap ("getting durable resource " <> key_text key) e), world)
  ]

  unfoldable pub reconcile_durable_metadata_protection :
      Client W → SupabaseProject → Effect W (Unit {0})
  reconcile_durable_metadata_protection client project =
      protect client.clusters (λ c. c.meta) cluster_with project
        (in_namespace project (cluster_name project))
      >> protect client.object_stores (λ s. s.meta) store_with project
          (in_namespace project (object_store_name project))
      >> protect client.object_stores (λ s. s.meta) store_with project
          (in_namespace project (recovery_object_store_name project))
      >> protect client.scheduled_backups (λ b. b.meta) backup_with project
          (in_namespace project (scheduled_backup_name project))

module _ {W : Type 0} (client : Client W) where
  -- The store that the recovery reads from.
  unfoldable pub validate_recovery_store : ObjectStore → Effect W (Unit {0})
  validate_recovery_store desired world =
      elim (client.object_stores.get (key_of desired.meta) world) [
        | ok current ↦ (
          if recovery_object_store_identity_changed current desired
              then err (
                  errorf
                    "CNPG recovery source ObjectStore configuration is immutable after cluster creation")
              else ok tt,
          world,
        )
        | err e ↦ (
          if e.is_not_found
              then ok tt
              else err (wrap "getting recovery source ObjectStore for validation" e),
          world,
        )
      ]

  unfoldable pub validate_existing_cluster :
      Semantic → SupabaseProject → Cluster → Cluster → Effect W (Unit {0})
  unfolding validate_recovery_store
  validate_existing_cluster semantic project existing desired =
      if recovery_bootstrap_intent_changed semantic existing.spec desired.spec
      then lift
          (err (errorf "CNPG recovery bootstrap configuration is immutable after cluster creation"))
      else elim (enabled_recovery project.spec.database.recovery) [
        | none ↦ done
        | some recovery ↦ validate_recovery_store (recovery_object_store project recovery)
      ]

  unfoldable pub validate_recovery_bootstrap_intent :
      Semantic → SupabaseProject → Effect W (Unit {0})
  unfolding validate_existing_cluster
  validate_recovery_bootstrap_intent semantic project world =
      let desired = build_cluster project project.status.secret_names in
      elim (client.clusters.get (key_of desired.meta) world) [
        | ok existing ↦ validate_existing_cluster semantic project existing desired world
        | err e ↦ (
          if e.is_not_found
              then ok tt
              else err (wrap "getting CNPG cluster for recovery validation" e),
          world,
        )
      ]
