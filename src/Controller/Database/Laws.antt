-- ===== src/Controller/Database/Laws.antt =====
-- The cluster that is written: internal/controller.
use cloudnative_supabase.Prelude.{◌≡◌, false, ok}
use cloudnative_supabase.Kube.Cnpg.{Cluster, ClusterSpec}
use cloudnative_supabase.Api.Project.{label_instance}
use cloudnative_supabase.Controller.Semantic.{Semantic}
use cloudnative_supabase.Controller.Storage.{Quantities}
use cloudnative_supabase.Controller.Fields.{reconcile_cluster_mutable_fields}
use cloudnative_supabase.Controller.Recovery.{recovery_bootstrap_intent_changed}
use cloudnative_supabase.Controller.Ownership.{label_of}
use cloudnative_supabase.Controller.Database.{repair_metadata}
use cloudnative_supabase.Controller.Effects.{Client, Machinery}
use cloudnative_supabase.Controller.State.{State}

module _ {W Quantity : Type 0} (machinery : Machinery) (client : Client W) (semantic : Semantic)
    (quantities : Quantities Quantity) where
  -- The cluster that is there is as it is wanted.
  pub record IsSettled (state : State W) (existing desired : Cluster) : Type 0 where
    pub labelled : label_of label_instance existing.meta.labels ≡ state.project.name
    pub same_bootstrap :
        recovery_bootstrap_intent_changed semantic existing.spec desired.spec ≡ false
    pub metadata_kept : (repair_metadata machinery state.project.name existing desired).1 ≡ false
    pub fields : ClusterSpec
    pub fields_kept :
        reconcile_cluster_mutable_fields semantic quantities existing.spec desired.spec
        ≡ ok (fields, false)
