-- ===== src/Controller/Storage.antt =====
-- `reconcileStorage` of internal/controller/supabaseproject_controller.go
pub mod Laws
use cloudnative_supabase.Prelude.{
  String, ◌<>◌, ◌==◌, Bool, true, false, ◌||◌, Option, Result, ok, err, errorf, wrap, map_err,
  ◌>>=◌, ◌>>◌, if◌then◌else◌,
}
use cloudnative_supabase.Kube.Cnpg.{StorageConfiguration}
use cloudnative_supabase.Controller.Semantic.{Semantic, replace, replace_set}

-- `resource.ParseQuantity`, and `a.Cmp(b) < 0`
pub record Quantities (Quantity : Type 0) : Type 0 where
  pub parse_quantity : String → Result Quantity
  pub is_less : Quantity → Quantity → Bool

module _ {Quantity : Type 0} (quantities : Quantities Quantity) where
  -- The test of a shrink, from `if existing.Size != ""` on.
  unfoldable pub check_shrink : String → String → Quantity → Result (Unit {0})
  check_shrink existing desired desired_quantity =
      if existing == ""
      then ok tt
      else map_err (wrap "existing storage size is invalid") (quantities.parse_quantity existing)
        >>= λ existing_quantity.
            if quantities.is_less desired_quantity existing_quantity
            then err (
                errorf
                  ("storage shrink from " <> existing <> " to " <> desired <> " is not supported"))
            else ok tt

  -- The size that is stored, and whether it changed.
  unfoldable pub reconcile_size : String → String → Result (String × Bool)
  unfolding check_shrink replace
  reconcile_size existing desired =
      if desired == ""
      then ok (existing, false)
      else map_err (wrap "storage size is invalid") (quantities.parse_quantity desired)
        >>= λ desired_quantity. check_shrink existing desired desired_quantity >>= λ _.
            ok (replace ◌==◌ existing desired)

module _ (semantic : Semantic) where
  -- The fields after the size was settled.
  unfoldable pub settle :
      StorageConfiguration → StorageConfiguration → String × Bool → StorageConfiguration × Bool
  settle existing desired size =
      let storage_class = replace_set semantic.text existing.storage_class desired.storage_class in
      let resize =
        replace_set semantic.flag existing.resize_in_use_volumes desired.resize_in_use_volumes in
      let template =
        replace_set semantic.text existing.persistent_volume_claim_template
          desired.persistent_volume_claim_template in
      (
        record {
          storage_class = storage_class.0;
          size = size.0;
          resize_in_use_volumes = resize.0;
          persistent_volume_claim_template = template.0;
        },
        size.1 || (storage_class.1 || (resize.1 || template.1)),
      )

  unfoldable pub reconcile_storage :
      {Quantity : Type 0}
      → Quantities Quantity
      → StorageConfiguration
      → StorageConfiguration
      → Result (StorageConfiguration × Bool)
  reconcile_storage quantities existing desired =
      reconcile_size quantities existing.size desired.size >>= λ size.
      ok (settle existing desired size)
