-- ===== src/Controller/Database.antt =====
-- `reconcileCNPGCluster`, `waitForDatabase` and `waitForPowerSyncManagedRoles` of
-- internal/controller/supabaseproject_controller.go
pub mod Laws
use cloudnative_supabase.Prelude.{
  ℕ, ◌<◌, ◌-◌, ◌%◌, ◌^◌, ltb, String, ◌<>◌, ◌==◌, Bool, true, false, ◌||◌, not, List, [], ◌∷◌,
  Result, ok, err, Error, errorf, ℤ, pos, negsuc, leb_ℤ, codes, has_prefix, if◌then◌else◌, Map,
}
use cloudnative_supabase.Kube.Meta.{Bytes}
use cloudnative_supabase.Kube.Cnpg.{Cluster, ClusterSpec}
use cloudnative_supabase.Api.Status.{SupabaseProjectStatus}
use cloudnative_supabase.Api.Project.{SupabaseProject, label_instance}
use cloudnative_supabase.Common.Names.{cluster_name, cluster_rw_service_name}
use cloudnative_supabase.Cnpg.Cluster.{build_cluster}
use cloudnative_supabase.Controller.Semantic.{Semantic}
use cloudnative_supabase.Controller.Storage.{Quantities}
use cloudnative_supabase.Controller.Fields.{reconcile_cluster_mutable_fields}
use cloudnative_supabase.Controller.Recovery.{recovery_bootstrap_intent_changed}
use cloudnative_supabase.Controller.Readiness.{power_sync_managed_roles_ready}
use cloudnative_supabase.Controller.Ownership.{
  label_of, merge_labels, remove_supabase_project_owner_reference,
}
use cloudnative_supabase.Controller.Durable.{in_namespace}
use cloudnative_supabase.Controller.Effects.{
  Effect, ◌>>=◌, ◌>>◌, lift, done, rescue, wrap_error, attempt, if_not_found, Client, Machinery,
  key_of,
}
use cloudnative_supabase.Controller.State.{
  State, Next, proceed, requeue, on_world, with_project, modify_status, set_condition,
  update_project_status, fail_condition, wait_condition,
}

-- `strings.Contains`
unfoldable pub contains_bytes : Bytes → Bytes → Bool
contains_bytes [] part = has_prefix [] part
contains_bytes (c ∷ text) part = has_prefix (c ∷ text) part || contains_bytes text part

unfoldable pub reconcile_err_reason : Error → String
unfolding contains_bytes
reconcile_err_reason e =
    if contains_bytes (codes e.message) (codes "storage shrink")
    then "StorageShrink"
    else "InvalidDatabaseConfiguration"

-- The conversion to `int32`: the lower 32 bits, in two's complement.
unfoldable pub to_int32 : ℤ → ℤ
to_int32 (pos n) =
    let low = n % 2 ^ 32 in if ltb low (2 ^ 31) then pos low else negsuc (2 ^ 32 - 1 - low)
to_int32 (negsuc n) =
    let low = n % 2 ^ 32 in if ltb low (2 ^ 31) then negsuc low else pos (2 ^ 32 - 1 - low)

-- The cluster with its owners and labels repaired, and whether they were.
unfoldable pub repair_metadata : Machinery → String → Cluster → Cluster → Cluster × Bool
repair_metadata machinery project_name existing desired =
    let owners =
      remove_supabase_project_owner_reference machinery.parse_group existing.meta.owner_references
        project_name in
    let labels = merge_labels existing.meta.labels desired.meta.labels in
    (
      record existing {
        meta = record existing.meta { owner_references = owners.0; labels = labels.0 };
      },
      labels.1 || owners.1,
    )

module _ {W : Type 0} (machinery : Machinery) (client : Client W) where
  unfoldable pub create_cluster : Cluster → Effect (State W) Next
  create_cluster desired =
      rescue (on_world (client.clusters.create desired))
        (fail_condition machinery client "DatabaseReady" "CreateFailed")
      >> wait_condition machinery client "DatabaseReady" "Creating" "CNPG Cluster is being created"

  -- `if changed { r.Update(ctx, existing) }`
  unfoldable pub update_metadata : Cluster × Bool → Effect (State W) (Unit {0})
  update_metadata repaired =
      if repaired.1
      then wrap_error "updating CNPG cluster metadata"
          (on_world (client.clusters.update repaired.0))
      else done

  -- The fields as they are settled: a failure is written with the metadata alone.
  unfoldable pub apply_fields : Cluster × Bool → Result (ClusterSpec × Bool) → Effect (State W) Next
  unfolding update_metadata reconcile_err_reason
  apply_fields repaired (err e) =
      update_metadata repaired
      >> fail_condition machinery client "DatabaseReady" (reconcile_err_reason e) e
  apply_fields repaired (ok fields) =
      if repaired.1 || fields.1
      then (wrap_error "updating CNPG cluster"
            (on_world (client.clusters.update (record repaired.0 { spec = fields.0 })))
          >> lift (ok requeue))
      else lift (ok proceed)

  module _ {Quantity : Type 0} (semantic : Semantic) (quantities : Quantities Quantity) where
    unfoldable pub update_cluster : String → Cluster → Cluster → Effect (State W) Next
    unfolding apply_fields repair_metadata update_metadata
    update_cluster project_name existing desired =
        let repaired = repair_metadata machinery project_name existing desired in
        if recovery_bootstrap_intent_changed semantic existing.spec desired.spec
        then (update_metadata repaired
            >> fail_condition machinery client "DatabaseReady" "BootstrapImmutable"
                (errorf "CNPG bootstrap configuration is immutable after cluster creation"))
        else apply_fields repaired
            (reconcile_cluster_mutable_fields semantic quantities existing.spec desired.spec)

    unfoldable pub adopt_cluster : String → Cluster → Cluster → Effect (State W) Next
    unfolding update_cluster
    adopt_cluster project_name existing desired =
        let instance = label_of label_instance existing.meta.labels in
        if instance == project_name
        then update_cluster project_name existing desired
        else lift (
            err (
              errorf (
                "CNPG Cluster " <> existing.meta.name <> " has instance label \"" <> instance
                <> "\", expected \"" <> project_name <> "\"")))

    unfoldable pub reconcile_cnpg_cluster : Effect (State W) Next
    unfolding create_cluster adopt_cluster
    reconcile_cnpg_cluster state =
        let project = state.project in
        let desired =
          machinery.default_cluster (build_cluster project project.status.secret_names) in
        attempt (λ state. client.clusters.get (key_of desired.meta) state.world)
          (λ existing. adopt_cluster project.name existing desired)
          (if_not_found (create_cluster desired)) state

  -- What the status says of a database that is ready.
  unfoldable pub record_database :
      SupabaseProject → Cluster → SupabaseProjectStatus → SupabaseProjectStatus
  unfolding to_int32
  record_database project cluster before = record before {
    database = record {
      ready = true;
      phase = cluster.status.phase;
      ready_instances = to_int32 cluster.status.ready_instances;
      primary_host = cluster.status.current_primary;
    };
    endpoints = record { api = ""; database = cluster_rw_service_name project <> ":5432" };
  }

  unfoldable pub check_database : Cluster → Effect (State W) Next
  unfolding record_database
  check_database cluster =
      if leb_ℤ cluster.spec.instances cluster.status.ready_instances
      then (with_project (λ project. modify_status (record_database project cluster))
          >> set_condition machinery "DatabaseReady" "True" "Ready" "Database is ready"
          >> update_project_status machinery client
          >> lift (ok proceed))
      else wait_condition machinery client "DatabaseReady" "WaitingForInstances" (
          "Waiting for database instances: "
          <> machinery.decimal_text cluster.status.ready_instances
          <> "/"
          <> machinery.decimal_text cluster.spec.instances
          <> " ready")

  -- The cluster of the project, or the error of reading it.
  abbrev pub with_cluster : (Cluster → Effect (State W) Next) → Effect (State W) Next
  with_cluster next =
      attempt
        (λ state.
          client.clusters.get (in_namespace state.project (cluster_name state.project)) state.world)
        next (λ e. lift (err e))

  unfoldable pub wait_for_database : Effect (State W) Next
  unfolding check_database
  wait_for_database = with_cluster check_database

  unfoldable pub check_roles : Result Bool → Effect (State W) Next
  check_roles (err e) = fail_condition machinery client "CDCReady" "ManagedRolesFailed" e
  check_roles (ok true) = lift (ok proceed)
  check_roles (ok false) =
      wait_condition machinery client "CDCReady" "ManagedRolesPending"
        "Waiting for CloudNativePG to reconcile PowerSync roles"

  unfoldable pub wait_for_power_sync_managed_roles : Effect (State W) Next
  unfolding check_roles
  wait_for_power_sync_managed_roles =
      with_cluster λ cluster. check_roles (power_sync_managed_roles_ready cluster.status)
