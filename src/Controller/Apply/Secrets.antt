-- ===== src/Controller/Apply/Secrets.antt =====
-- `createOrUpdateSecret`, `createOrUpdateConfigMap` and `createOrUpdateService` of
-- internal/controller/supabaseproject_controller.go
use cloudnative_supabase.Prelude.{
  ◌<>◌, ◌==◌, ◌&&◌, not, Option, none, some, err, errorf, if◌then◌else◌,
}
use cloudnative_supabase.Kube.Core.{Secret, ConfigMap, Service}
use cloudnative_supabase.Api.Project.{SupabaseProject, label_instance}
use cloudnative_supabase.Controller.Ownership.{label_of, merge_labels}
use cloudnative_supabase.Controller.Effects.{
  Effect, ◌>>=◌, lift, done, Resource, Machinery, own, create_or, key_of,
}

module _ {W : Type 0} (machinery : Machinery) where
  -- What is there keeps its data: only its owners may change.
  unfoldable pub adopt_secret : Resource W Secret → SupabaseProject → Secret → Effect W (Unit {0})
  adopt_secret secrets project existing = lift (own machinery project existing.meta) >>= λ meta.
      if machinery.equal.owners existing.meta.owner_references meta.owner_references
      then done
      else secrets.update (record existing { meta = meta })

  unfoldable pub create_or_update_secret :
      Resource W Secret → SupabaseProject → Secret → Effect W (Unit {0})
  create_or_update_secret secrets project secret =
      lift (own machinery project secret.meta) >>= λ meta.
      create_or secrets (key_of secret.meta) (record secret { meta = meta })
        (adopt_secret secrets project)

  -- The labels and the data, after the owners.
  unfoldable pub refresh_config_map :
      Resource W ConfigMap → SupabaseProject → ConfigMap → ConfigMap → Effect W (Unit {0})
  refresh_config_map config_maps project config_map existing =
      lift (own machinery project existing.meta) >>= λ meta.
      let labels = merge_labels existing.meta.labels config_map.meta.labels in
      if machinery.equal.data_ existing.data_ config_map.data_
        && (machinery.equal.owners existing.meta.owner_references meta.owner_references
            && not labels.1)
      then done
      else config_maps.update
          (record existing { meta = record meta { labels = labels.0 }; data_ = config_map.data_ })

  -- A ConfigMap without the label of the project is not taken over.
  unfoldable pub adopt_config_map :
      Resource W ConfigMap → SupabaseProject → ConfigMap → ConfigMap → Effect W (Unit {0})
  unfolding refresh_config_map
  adopt_config_map config_maps project config_map existing =
      if label_of label_instance existing.meta.labels == project.name
      then refresh_config_map config_maps project config_map existing
      else lift (
          err (
            errorf (
              "refusing to adopt ConfigMap " <> existing.meta.name
              <> " without the project instance label")))

  unfoldable pub create_or_update_config_map :
      Resource W ConfigMap → SupabaseProject → ConfigMap → Effect W (Unit {0})
  unfolding adopt_config_map
  create_or_update_config_map config_maps project config_map =
      lift (own machinery project config_map.meta) >>= λ meta.
      create_or config_maps (key_of config_map.meta) (record config_map { meta = meta })
        (adopt_config_map config_maps project (record config_map { meta = meta }))

  -- The cluster IP and the other fields stay.
  unfoldable pub refresh_service :
      Resource W Service → SupabaseProject → Service → Service → Effect W (Unit {0})
  refresh_service services project service existing =
      lift (own machinery project existing.meta) >>= λ meta.
      if machinery.equal.ports existing.ports service.ports
        && (machinery.equal.selector existing.selector service.selector
            && machinery.equal.owners existing.meta.owner_references meta.owner_references)
      then done
      else services.update
          (record existing { meta = meta; ports = service.ports; selector = service.selector })

  unfoldable pub create_or_update_service :
      Resource W Service → SupabaseProject → Option Service → Effect W (Unit {0})
  unfolding refresh_service
  create_or_update_service services project none = done
  create_or_update_service services project (some service) =
      lift (own machinery project service.meta) >>= λ meta.
      create_or services (key_of service.meta) (record service { meta = meta })
        (refresh_service services project service)
