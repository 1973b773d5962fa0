-- ===== src/Controller/Recovery/Laws.antt =====
-- When the creation-time inputs of a cluster count as changed.
use cloudnative_supabase.Prelude.{
  ◌≡◌, refl, sym, ◌∙◌, ==_refl, Bool, false, ◌||◌, is_some, Option, none, some, inl, inr,
  Option-cases, ok, arith,
}
use cloudnative_supabase.Kube.Cnpg.{
  ClusterSpec, BootstrapRecovery, BootstrapInitDb, ExternalCluster,
}
use cloudnative_supabase.Api.Status.{SecretNamesStatus}
use cloudnative_supabase.Api.Project.{SupabaseProject}
use cloudnative_supabase.Common.Names.{
  init_sql_config_map_name, recovery_source_name as source_name_of, recovery_object_store_name,
}
use cloudnative_supabase.Cnpg.Cluster.{
  build_cluster, build_bootstrap_configuration, recovery_external_clusters, enabled_recovery,
}
use cloudnative_supabase.Controller.Semantic.{Semantic, IsSemantic}
use cloudnative_supabase.Controller.Storage.{Quantities}
use cloudnative_supabase.Controller.Fields.{reconcile_cluster_mutable_fields}
use cloudnative_supabase.Controller.Fields.Laws.{reconcile_cluster_mutable_fields-Keeps}
use cloudnative_supabase.Controller.Recovery.{
  recovery_bootstrap, init_db_changed, recovery_changed, source_changed,
  recovery_external_cluster_identity, recovery_bootstrap_intent_changed,
}

module _ (semantic : Semantic) (h : IsSemantic semantic) where
  init_db_changed_refl : (i : Option BootstrapInitDb) → init_db_changed semantic i i ≡ false
  unfolding init_db_changed
  init_db_changed_refl none = refl
  init_db_changed_refl (some i) = ground (
    arith,
    ==_refl i.database,
    ==_refl i.owner,
    h.secret-refl i.secret,
    h.sql_refs-refl i.post_init_application_sql_refs,
  )

  recovery_changed_refl : (r : Option BootstrapRecovery) → recovery_changed semantic r r ≡ false
  unfolding recovery_changed
  recovery_changed_refl none = refl
  recovery_changed_refl (some r) = ground (arith, h.recovery-refl r)

  source_changed_refl : (s : Option ExternalCluster) → source_changed semantic s s ≡ false
  unfolding source_changed
  source_changed_refl none = refl
  source_changed_refl (some s) =
      ground (arith, h.identity-refl (recovery_external_cluster_identity s))

  -- Two specifications with the same bootstrap and external clusters have the same recovery.
  recovery_bootstrap_intent_changed-same :
      (existing desired : ClusterSpec)
      → existing.bootstrap ≡ desired.bootstrap
      → existing.external_clusters ≡ desired.external_clusters
      → recovery_bootstrap_intent_changed semantic existing desired ≡ false
  unfolding recovery_bootstrap_intent_changed
  recovery_bootstrap_intent_changed-same existing desired b e =
      rw (b, e, recovery_changed_refl, init_db_changed_refl, source_changed_refl) refl

  -- Two versions of a project with the same metadata and the same recovery settings build, with the
  -- same Secret names, clusters whose creation-time inputs do not count as changed, if equality is
  -- reflexive.
  pub intent-build_cluster :
      (before after : SupabaseProject) (secret_names : SecretNamesStatus)
      → before.metadata ≡ after.metadata
      → before.spec.database.recovery ≡ after.spec.database.recovery
      → recovery_bootstrap_intent_changed semantic
          (build_cluster before secret_names).spec
          (build_cluster after secret_names).spec
        ≡ false
  unfolding build_cluster build_bootstrap_configuration recovery_external_clusters
      init_sql_config_map_name source_name_of recovery_object_store_name
  intent-build_cluster before after secret_names m r =
      recovery_bootstrap_intent_changed-same (build_cluster before secret_names).spec
        (build_cluster after secret_names).spec (rw (m, r) refl) (rw (m, r) refl)

recovery_bootstrap-build_cluster :
    (project : SupabaseProject) (secret_names : SecretNamesStatus)
    → is_some (recovery_bootstrap (build_cluster project secret_names).spec.bootstrap)
      ≡ is_some (enabled_recovery project.spec.database.recovery)
unfolding build_cluster build_bootstrap_configuration recovery_bootstrap
recovery_bootstrap-build_cluster project secret_names =
    elim (Option-cases (enabled_recovery project.spec.database.recovery)) [
      | inl e ↦ rw (e, build_bootstrap_configuration) refl
      | inr (r, e) ↦ rw (e, build_bootstrap_configuration) refl
    ]

recovery_changed-eq-false :
    (semantic : Semantic) (a b : Option BootstrapRecovery)
    → recovery_changed semantic a b ≡ false
    → is_some a ≡ is_some b
unfolding recovery_changed
recovery_changed-eq-false semantic none none h = refl
recovery_changed-eq-false semantic (some a) (some b) h = refl
recovery_changed-eq-false semantic none (some b) h = cc
recovery_changed-eq-false semantic (some a) none h = cc

or-eq-false : (a b : Bool) → (a || b) ≡ false → a ≡ false
or-eq-false a b h = ground arith

intent-recovery_changed :
    (semantic : Semantic) (existing desired : ClusterSpec)
    → recovery_bootstrap_intent_changed semantic existing desired ≡ false
    → recovery_changed semantic
        (recovery_bootstrap existing.bootstrap)
        (recovery_bootstrap desired.bootstrap)
      ≡ false
unfolding recovery_bootstrap_intent_changed
intent-recovery_changed semantic existing desired h =
    or-eq-false
      (recovery_changed semantic (recovery_bootstrap existing.bootstrap)
        (recovery_bootstrap desired.bootstrap))
      _ h

-- If the clusters of two projects do not differ in their creation-time inputs, then recovery is
-- enabled for both projects or for none: switching recovery on or off is always noticed.
pub intent-enabled_recovery :
    (semantic : Semantic) (before after : SupabaseProject)
    (secret_names later_names : SecretNamesStatus)
    → recovery_bootstrap_intent_changed semantic
        (build_cluster before secret_names).spec
        (build_cluster after later_names).spec
      ≡ false
    → is_some (enabled_recovery before.spec.database.recovery)
      ≡ is_some (enabled_recovery after.spec.database.recovery)
intent-enabled_recovery semantic before after secret_names later_names h =
    sym (recovery_bootstrap-build_cluster before secret_names)
    ∙ recovery_changed-eq-false semantic
        (recovery_bootstrap (build_cluster before secret_names).spec.bootstrap)
        (recovery_bootstrap (build_cluster after later_names).spec.bootstrap)
        (intent-recovery_changed semantic (build_cluster before secret_names).spec
          (build_cluster after later_names).spec h)
    ∙ recovery_bootstrap-build_cluster after later_names

-- Reconciling the other fields does not hide a change of the creation-time inputs: the test gives the
-- same answer before a run that succeeds and after it.
pub intent-reconcile_cluster_mutable_fields :
    {Quantity : Type 0} (semantic : Semantic) (quantities : Quantities Quantity)
    (existing desired result : ClusterSpec) (changed : Bool)
    → reconcile_cluster_mutable_fields semantic quantities existing desired ≡ ok (result, changed)
    → recovery_bootstrap_intent_changed semantic result desired
      ≡ recovery_bootstrap_intent_changed semantic existing desired
unfolding recovery_bootstrap_intent_changed
intent-reconcile_cluster_mutable_fields semantic quantities existing desired result changed e =
    let (_, b, c, _, _) =
      reconcile_cluster_mutable_fields-Keeps semantic quantities existing desired result changed
        e in
    rw (b, c) refl
