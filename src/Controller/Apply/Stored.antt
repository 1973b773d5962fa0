-- ===== src/Controller/Apply/Stored.antt =====
-- What the server has after a create-or-update step that succeeds: internal/controller.
pub mod ConfigMaps
pub mod Deployments
use cloudnative_supabase.Prelude.{
  ◌≡◌, refl, sym, subst, ap, ◌∙◌, Bool, true, false, ◌&&◌, not, arith, Option, none, some, List, ok,
  err, Error, Map, if◌then◌else◌, String, ◌==◌, ℤ, Result,
}
use cloudnative_supabase.Kube.Meta.{Bytes, NamespacedName, ObjectMeta, OwnerReference}
use cloudnative_supabase.Kube.Core.{ConfigMap, Deployment, PodTemplateSpec}
use cloudnative_supabase.Api.Project.{SupabaseProject, label_instance}
use cloudnative_supabase.Controller.Semantic.{Reflexive}
use cloudnative_supabase.Controller.Defaults.{
  normalize_pod_template_defaults, normalize_pod_template_defaults_again,
}
use cloudnative_supabase.Controller.Ownership.{label_of}
use cloudnative_supabase.Controller.Apply.Secrets.{
  create_or_update_config_map, adopt_config_map, refresh_config_map,
}
use cloudnative_supabase.Controller.Apply.Workloads.{
  create_or_update_deployment, refresh_deployment, strategy_changed,
}
use cloudnative_supabase.Controller.Effects.{
  Effect, Resource, Machinery, own, create_or, key_of, map_ok, done, bind_run, if_run, attempt_run,
  lift_run, error_run, lift_bind_run, done_run,
}

-- How the server keeps objects: a write of an object leaves under its name an object with the same
-- `view` as the one that was written, after `fill` has filled in the defaults of the kind, and what
-- is read under a name has that name.
pub record IsFillingStore {W A V : Type 0} (resource : Resource W A) (meta_of : A → ObjectMeta)
    (view : A → V) (fill : A → A) : Type 0 where
  pub after_create :
      (new : A) (before after : W)
      → resource.create new before ≡ (ok tt, after)
      → (stored : A) × (resource.get (key_of (meta_of new)) after ≡ ok stored)
        × (view stored ≡ view (fill new))
  pub after_update :
      (new : A) (before after : W)
      → resource.update new before ≡ (ok tt, after)
      → (stored : A) × (resource.get (key_of (meta_of new)) after ≡ ok stored)
        × (view stored ≡ view (fill new))
  pub keyed :
      (key : NamespacedName) (world : W) (found : A)
      → resource.get key world ≡ ok found
      → key_of (meta_of found) ≡ key

-- A server that fills in nothing.
abbrev pub IsStore : {W A V : Type 0} → Resource W A → (A → ObjectMeta) → (A → V) → Type 0
IsStore resource meta_of view = IsFillingStore resource meta_of view (λ a. a)

-- An adoption changes neither the name nor the namespace.
pub own-key_of :
    (machinery : Machinery) (project : SupabaseProject) (meta owned : ObjectMeta)
    → own machinery project meta ≡ ok owned
    → key_of owned ≡ key_of meta
unfolding own
own-key_of machinery project meta owned h =
    go (machinery.set_controller_reference project (key_of meta) meta.owner_references) h
  where
    go :
        (owners : Result (List OwnerReference))
        → map_ok (λ o. record meta { owner_references = o }) owners ≡ ok owned
        → key_of owned ≡ key_of meta
    go (ok o) e = cc
    go (err e) f = cc

module _ {W A V : Type 0} (resource : Resource W A) (meta_of : A → ObjectMeta) (view : A → V)
    (fill : A → A) (store : IsFillingStore resource meta_of view fill) (P : V → Type 0) where
  -- The server has an object of that name with the property.
  abbrev pub Has : NamespacedName → W → Type 0
  Has key world = (stored : A) × (resource.get key world ≡ ok stored) × P (view stored)

  written :
      (key : NamespacedName) (new : A) (world : W)
      → key_of (meta_of new) ≡ key
      → P (view (fill new))
      → (stored : A) × (resource.get (key_of (meta_of new)) world ≡ ok stored)
        × (view stored ≡ view (fill new))
      → Has key world
  written key new world k p (stored, found, same) =
      (stored, subst (λ k. resource.get k world ≡ ok stored) k found, subst P (sym same) p)

  pub updated :
      (key : NamespacedName) (new : A) (before after : W)
      → key_of (meta_of new) ≡ key
      → P (view (fill new))
      → resource.update new before ≡ (ok tt, after)
      → Has key after
  updated key new before after k p h =
      written key new after k p (store.after_update new before after h)

  pub create_or_run :
      (key : NamespacedName) (new : A) (next : A → Effect W (Unit {0})) (before after : W)
      → key_of (meta_of new) ≡ key
      → P (view (fill new))
      → ((existing : A)
          → resource.get key before ≡ ok existing
          → next existing before ≡ (ok tt, after)
          → Has key after)
      → create_or resource key new next before ≡ (ok tt, after)
      → Has key after
  unfolding create_or
  create_or_run key new next before after k p step h = attempt_run _ _ _ h step λ e absent g.
      if_run e.is_not_found _ _ g
        (λ t f. written key new after k p (store.after_create new before after f))
        (λ t f. error_run e _ f)

pub and_left : (a b : Bool) → a && b ≡ true → a ≡ true
and_left a b h = ground arith

pub and_right : (a b : Bool) → a && b ≡ true → b ≡ true
and_right a b h = ground arith
