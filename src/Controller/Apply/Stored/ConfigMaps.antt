-- ===== src/Controller/Apply/Stored/ConfigMaps.antt =====
-- What the server has after `createOrUpdateConfigMap` of
-- internal/controller/supabaseproject_controller.go
use cloudnative_supabase.Prelude.{◌≡◌, refl, sym, subst, ◌∙◌, true, ◌&&◌, ok, Map, ◌==◌}
use cloudnative_supabase.Kube.Meta.{Bytes}
use cloudnative_supabase.Kube.Core.{ConfigMap}
use cloudnative_supabase.Api.Project.{SupabaseProject, label_instance}
use cloudnative_supabase.Controller.Semantic.{Reflexive}
use cloudnative_supabase.Controller.Ownership.{label_of}
use cloudnative_supabase.Controller.Apply.Secrets.{
  create_or_update_config_map, adopt_config_map, refresh_config_map,
}
use cloudnative_supabase.Controller.Effects.{
  Resource, Machinery, key_of, if_run, error_run, lift_bind_run, done_run,
}
use cloudnative_supabase.Controller.Apply.Stored.{
  IsStore, Has, own-key_of, updated, create_or_run, and_left,
}

module _ {W : Type 0} (machinery : Machinery) (config_maps : Resource W ConfigMap)
    (store : IsStore config_maps (λ c. c.meta) (λ c. c.data_))
    (reflexive : Reflexive machinery.equal.data_) (project : SupabaseProject)
    (config_map : ConfigMap) where
  abbrev WantedData : Map Bytes → Type 0
  WantedData data_ = machinery.equal.data_ data_ config_map.data_ ≡ true

  refresh_config_map_run :
      (new existing : ConfigMap) (before after : W)
      → new.data_ ≡ config_map.data_
      → config_maps.get (key_of config_map.meta) before ≡ ok existing
      → refresh_config_map machinery config_maps project new existing before ≡ (ok tt, after)
      → Has config_maps
          (λ c. c.meta)
          (λ c. c.data_)
          (λ c. c)
          store
          WantedData
          (key_of config_map.meta)
          after
  unfolding refresh_config_map
  refresh_config_map_run new existing before after same found h = lift_bind_run _ _ h λ owned e g.
      if_run (machinery.equal.data_ existing.data_ new.data_ && _) _ _ g
        (λ t f. (
          existing,
          subst (λ w. config_maps.get (key_of config_map.meta) w ≡ ok existing) (done_run before f)
              found,
          subst (λ d. machinery.equal.data_ existing.data_ d ≡ true) same (and_left _ _ t),
        ))
        (λ t f.
          updated config_maps (λ c. c.meta) (λ c. c.data_) (λ c. c) store WantedData
            (key_of config_map.meta) _ before after
            (own-key_of machinery project existing.meta owned e
              ∙ store.keyed (key_of config_map.meta) before existing found)
            (subst (λ d. machinery.equal.data_ d config_map.data_ ≡ true) (sym same)
              (reflexive config_map.data_))
            f)

  -- After a step that succeeds, the server has a ConfigMap of that name and namespace whose data
  -- equals the desired data, provided that the server stores what is written to it and that
  -- equality is reflexive.
  pub create_or_update_config_map-Has :
      (before after : W)
      → create_or_update_config_map machinery config_maps project config_map before ≡ (ok tt, after)
      → (stored : ConfigMap) × (config_maps.get (key_of config_map.meta) after ≡ ok stored)
        × (machinery.equal.data_ stored.data_ config_map.data_ ≡ true)
  unfolding create_or_update_config_map adopt_config_map
  create_or_update_config_map-Has before after h = lift_bind_run _ _ h λ owned e g.
      create_or_run config_maps (λ c. c.meta) (λ c. c.data_) (λ c. c) store WantedData
        (key_of config_map.meta) _ _ before after
        (own-key_of machinery project config_map.meta owned e) (reflexive config_map.data_)
        (λ existing found f.
          if_run (label_of label_instance existing.meta.labels == project.name) _ _ f
            (λ t k.
              refresh_config_map_run (record config_map { meta = owned }) existing before after refl
                found k)
            (λ t k. error_run _ _ k))
        g
