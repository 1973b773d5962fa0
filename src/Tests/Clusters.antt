-- ===== src/Tests/Clusters.antt =====
-- Reconciling concrete clusters.
use cloudnative_supabase.Prelude.{
  ◌≡◌, refl, String, true, false, none, is_some, [], ◌∷◌, ok, ltb, pos,
}
use cloudnative_supabase.Kube.Cnpg.{StorageConfiguration, ClusterSpec, PluginConfiguration}
use cloudnative_supabase.Api.Project.{SupabaseProject}
use cloudnative_supabase.Cnpg.Cluster.{build_cluster, enabled_recovery}
use cloudnative_supabase.Controller.Semantic.{replace, replace_set}
use cloudnative_supabase.Controller.Storage.{
  check_shrink, reconcile_size, settle, reconcile_storage,
}
use cloudnative_supabase.Controller.Storage.Laws.{reconcile_storage-grows, reconcile_storage_again}
use cloudnative_supabase.Controller.Plugins.{reconcile_barman_plugin}
use cloudnative_supabase.Controller.Plugins.Laws.{
  foreign, foreign-reconcile_barman_plugin, reconcile_barman_plugin_again,
}
use cloudnative_supabase.Controller.Fields.{assign_fields, reconcile_cluster_mutable_fields}
use cloudnative_supabase.Controller.Fields.Laws.{reconcile_cluster_mutable_fields_again}
use cloudnative_supabase.Controller.Recovery.{recovery_bootstrap_intent_changed}
use cloudnative_supabase.Controller.Recovery.Laws.{
  intent-build_cluster, intent-enabled_recovery, intent-reconcile_cluster_mutable_fields,
}
use cloudnative_supabase.Tests.Objects.{
  test_project, test_metadata, test_status, test_spec, test_secret_names, test_storage,
}
use cloudnative_supabase.Tests.Semantics.{
  test_semantic, test_semantic-IsSemantic, test_quantities, ltb-irreflexive,
}

abbrev storage_of_size : String → StorageConfiguration
storage_of_size size = record test_storage { size = size }

grow-test :
    reconcile_storage test_semantic test_quantities (storage_of_size "11") (storage_of_size "111")
    ≡ ok (storage_of_size "111", true)
unfolding reconcile_storage reconcile_size check_shrink settle replace replace_set
grow-test = refl

reconcile_storage-grows_example : ltb 3 2 ≡ false
reconcile_storage-grows_example =
    reconcile_storage-grows test_quantities test_semantic (storage_of_size "11")
      (storage_of_size "111") (storage_of_size "111") true 2 3 ltb-irreflexive grow-test (λ e. cc)
      refl refl

reconcile_storage_again_example :
    reconcile_storage test_semantic test_quantities (storage_of_size "111") (storage_of_size "111")
    ≡ ok (storage_of_size "111", false)
reconcile_storage_again_example =
    reconcile_storage_again test_quantities test_semantic (storage_of_size "11")
      (storage_of_size "111") (storage_of_size "111") true test_semantic-IsSemantic ltb-irreflexive
      grow-test

abbrev other_plugin : PluginConfiguration
other_plugin = record { name = "other"; enabled = none; is_wal_archiver = none; parameters = [] }

abbrev barman : PluginConfiguration
barman = record {
  name = "barman-cloud.cloudnative-pg.io";
  enabled = none;
  is_wal_archiver = none;
  parameters = ("barmanObjectName", "b") ∷ [];
}

foreign-reconcile_barman_plugin_example :
    foreign (reconcile_barman_plugin test_semantic (other_plugin ∷ []) (barman ∷ [])).0
    ≡ other_plugin ∷ []
foreign-reconcile_barman_plugin_example =
    foreign-reconcile_barman_plugin test_semantic (other_plugin ∷ []) (barman ∷ [])

reconcile_barman_plugin_again_example :
    reconcile_barman_plugin test_semantic
      (reconcile_barman_plugin test_semantic (other_plugin ∷ []) (barman ∷ [])).0
      (barman ∷ [])
    ≡ ((reconcile_barman_plugin test_semantic (other_plugin ∷ []) (barman ∷ [])).0, false)
reconcile_barman_plugin_again_example =
    reconcile_barman_plugin_again test_semantic (other_plugin ∷ []) (barman ∷ [])
      test_semantic-IsSemantic

-- The cluster of the project, and of the project with more instances.
abbrev test_cluster : ClusterSpec
test_cluster = (build_cluster test_project test_secret_names).spec

abbrev larger_cluster : ClusterSpec
larger_cluster = record test_cluster { instances = pos 3 }

abbrev result_cluster : ClusterSpec
result_cluster = (assign_fields test_semantic test_cluster larger_cluster (test_storage, false)).0

fields-test :
    reconcile_cluster_mutable_fields test_semantic test_quantities test_cluster larger_cluster
    ≡ ok (result_cluster, true)
unfolding reconcile_cluster_mutable_fields reconcile_storage reconcile_size check_shrink settle
    replace replace_set assign_fields build_cluster
fields-test = refl

reconcile_cluster_mutable_fields_again_example :
    reconcile_cluster_mutable_fields test_semantic test_quantities result_cluster larger_cluster
    ≡ ok (result_cluster, false)
reconcile_cluster_mutable_fields_again_example =
    reconcile_cluster_mutable_fields_again test_semantic test_semantic-IsSemantic test_quantities
      test_cluster larger_cluster result_cluster true ltb-irreflexive fields-test

intent-reconcile_cluster_mutable_fields_example :
    recovery_bootstrap_intent_changed test_semantic result_cluster larger_cluster
    ≡ recovery_bootstrap_intent_changed test_semantic test_cluster larger_cluster
intent-reconcile_cluster_mutable_fields_example =
    intent-reconcile_cluster_mutable_fields test_semantic test_quantities test_cluster
      larger_cluster result_cluster true fields-test

-- The project without PowerSync, with the same database.
abbrev later_project : SupabaseProject
later_project = record {
  metadata = test_metadata;
  spec = record test_spec { powersync = none };
  status = test_status;
}

same_intent :
    recovery_bootstrap_intent_changed test_semantic test_cluster
      (build_cluster later_project test_secret_names).spec
    ≡ false
same_intent =
    intent-build_cluster test_semantic test_semantic-IsSemantic test_project later_project
      test_secret_names refl refl

intent-enabled_recovery_example :
    is_some (enabled_recovery test_project.spec.database.recovery)
    ≡ is_some (enabled_recovery later_project.spec.database.recovery)
intent-enabled_recovery_example =
    intent-enabled_recovery test_semantic test_project later_project test_secret_names
      test_secret_names same_intent
