-- ===== src/Tests/Stores.antt =====
-- A server with one place for an object, and the create-or-update steps on it.
use cloudnative_supabase.Controller.Effects.{◌>>=◌, lift, own, create_or, attempt}
use cloudnative_supabase.Prelude.{
  ◌≡◌, refl, ◌==◌, ==_refl, eq_iff, Bool, true, false, ◌&&◌, Option, none, some, Result, ok, err,
  [], ◌∷◌, ap, subst, Error, codes, if◌then◌else◌, List, String, ℤ, pos, ◌=ℤ=◌, =ℤ=_iff, ◌⊎◌, inl,
  inr,
}
use cloudnative_supabase.Kube.Meta.{NamespacedName, ObjectMeta}
use cloudnative_supabase.Kube.Core.{ConfigMap, Deployment, Container, PodTemplateSpec}
use cloudnative_supabase.Controller.Effects.{Resource, Machinery, key_of}
use cloudnative_supabase.Controller.Apply.Secrets.{create_or_update_config_map}
use cloudnative_supabase.Controller.Apply.Workloads.{create_or_update_deployment}
use cloudnative_supabase.Controller.Apply.Stored.{IsStore, IsFillingStore, and_left, and_right}
use cloudnative_supabase.Controller.Apply.Stored.ConfigMaps.{create_or_update_config_map-Has}
use cloudnative_supabase.Controller.Apply.Stored.Deployments.{
  owned_of, Covers, create_or_update_deployment-Has,
}
use cloudnative_supabase.Controller.Defaults.{
  normalize_pod_template_defaults, normalize_pod_template_defaults_again,
}
use cloudnative_supabase.Deployments.Helpers.{container_with}
use cloudnative_supabase.Tests.Operator.{
  test_machinery, test_equality, test_template, plain_project, test_config_map, test_deployment,
}

abbrev same_key : NamespacedName → NamespacedName → Bool
same_key a b = a.name == b.name && a.namespace == b.namespace

abbrev find : {A : Type 0} → (A → ObjectMeta) → NamespacedName → Option A → Result A
find meta_of key none = err (record { is_not_found = true; message = "" })
find meta_of key (some a) =
    if same_key (key_of (meta_of a)) key
    then ok a
    else err (record { is_not_found = true; message = "" })

-- What is written is stored after `fill`.
abbrev filling_slot : {A : Type 0} → (A → ObjectMeta) → (A → A) → Resource (Option A) A
filling_slot {A} meta_of fill = record {
  get = find meta_of;
  create = λ new place. (ok tt, some (fill new));
  update = λ new place. (ok tt, some (fill new));
  delete = λ old place. (ok tt, none);
}

abbrev slot : {A : Type 0} → (A → ObjectMeta) → Resource (Option A) A
slot meta_of = filling_slot meta_of (λ a. a)

find_written :
    {A : Type 0} (meta_of : A → ObjectMeta) (new : A) (after : Option A)
    → some new ≡ after
    → find meta_of (key_of (meta_of new)) after ≡ ok new
find_written meta_of new after h =
    subst (λ place. find meta_of (key_of (meta_of new)) place ≡ ok new) h
      (rw (==_refl (meta_of new).name, ==_refl (meta_of new).namespace) refl)

same_key-eq : (a b : NamespacedName) → same_key a b ≡ true → a ≡ b
same_key-eq a b h =
    pair_of ((eq_iff a.name b.name).0 (and_left _ _ h))
      ((eq_iff a.namespace b.namespace).0 (and_right _ _ h))
  where
    pair_of : a.name ≡ b.name → a.namespace ≡ b.namespace → a ≡ b
    pair_of n m = cc

ok_injective : {A : Type 0} {a b : A} → Result.ok a ≡ ok b → a ≡ b
ok_injective h = cc

found_run :
    {A : Type 0} (test : Bool) (a : A) (e : Error) {found : A}
    → (if test then Result.ok a else err e) ≡ ok found
    → (test ≡ true) × (Result.ok a ≡ ok found)
found_run true a e h = (refl, h)
found_run false a e h = cc

found_keyed :
    {A : Type 0} (meta_of : A → ObjectMeta) (key : NamespacedName) (place : Option A) (found : A)
    → find meta_of key place ≡ ok found
    → key_of (meta_of found) ≡ key
found_keyed meta_of key none found h = cc
found_keyed meta_of key (some a) found h =
    subst (λ b. key_of (meta_of b) ≡ key) (ok_injective (found_run _ _ _ h).1)
      (same_key-eq (key_of (meta_of a)) key (found_run _ _ _ h).0)

slot-IsStore :
    {A V : Type 0} (meta_of : A → ObjectMeta) (view : A → V) → IsStore (slot meta_of) meta_of view
slot-IsStore meta_of view = record {
  after_create =
      λ new before after h. (new, find_written meta_of new after (ap (λ o. o.1) h), refl);
  after_update =
      λ new before after h. (new, find_written meta_of new after (ap (λ o. o.1) h), refl);
  keyed = found_keyed meta_of;
}

abbrev wanted_map : ConfigMap
wanted_map = record test_config_map { data_ = ("a", codes "1") ∷ [] }

config_map-test :
    create_or_update_config_map test_machinery (slot (λ c. c.meta)) plain_project wanted_map none
    ≡ (ok tt, some wanted_map)
unfolding create_or_update_config_map ◌>>=◌ lift own create_or attempt
config_map-test = refl

create_or_update_config_map-Has_example :
    (stored : ConfigMap) × ((slot {A = ConfigMap} (λ c. c.meta)).get
        (key_of wanted_map.meta)
        (some wanted_map)
      ≡ ok stored)
    × (true ≡ true)
create_or_update_config_map-Has_example =
    create_or_update_config_map-Has test_machinery (slot (λ c. c.meta))
      (slot-IsStore (λ c. c.meta) (λ c. c.data_)) (λ d. refl) plain_project wanted_map none
      (some wanted_map) config_map-test

-- The server's own defaults: one replica, the defaults of pods, and a rolling update.
abbrev server_defaults : Deployment → Deployment
server_defaults d = record d {
  replicas = elim d.replicas [ none ↦ some (pos 1) | some n ↦ some n ];
  template = normalize_pod_template_defaults d.template;
  strategy = record d.strategy { type = "RollingUpdate" };
}

abbrev server : Resource (Option Deployment) Deployment
server = filling_slot (λ d. d.meta) server_defaults

server-IsFillingStore : IsFillingStore server (λ d. d.meta) owned_of server_defaults
server-IsFillingStore = record {
  after_create = λ new before after h. (
    server_defaults new,
    find_written (λ d. d.meta) (server_defaults new) after (ap (λ o. o.1) h),
    refl,
  );
  after_update = λ new before after h. (
    server_defaults new,
    find_written (λ d. d.meta) (server_defaults new) after (ap (λ o. o.1) h),
    refl,
  );
  keyed = found_keyed (λ d. d.meta);
}

server-Covers : (template : PodTemplateSpec) → Covers server_defaults template
server-Covers template = record { replicas_kept = λ new n h. rw h refl; template_covered = covered }
  where
    covered :
        (new : Deployment)
        → (new.template ≡ template) ⊎ (new.template ≡ normalize_pod_template_defaults template)
        → normalize_pod_template_defaults (server_defaults new).template
          ≡ normalize_pod_template_defaults template
    covered new (inl e) = rw e (normalize_pod_template_defaults_again template)
    covered new (inr e) =
        rw (e, normalize_pod_template_defaults_again template)
          (normalize_pod_template_defaults_again template)

-- Templates are compared by the images of their containers, in order.
abbrev same_images : List Container → List Container → Bool
same_images [] [] = true
same_images [] (b ∷ bs) = false
same_images (a ∷ as_) [] = false
same_images (a ∷ as_) (b ∷ bs) = a.image == b.image && same_images as_ bs

same_images_refl : (containers : List Container) → same_images containers containers ≡ true
same_images_refl [] = refl
same_images_refl (c ∷ cs) = rw (==_refl c.image, same_images_refl cs) refl

abbrev same_replicas : Option ℤ → Option ℤ → Bool
same_replicas none none = true
same_replicas none (some n) = false
same_replicas (some m) none = false
same_replicas (some m) (some n) = m =ℤ= n

same_replicas_refl : (replicas : Option ℤ) → same_replicas replicas replicas ≡ true
same_replicas_refl none = refl
same_replicas_refl (some n) = (=ℤ=_iff n n).1 refl

abbrev comparing : Machinery
comparing = record test_machinery {
  equal = record test_equality {
    replicas = same_replicas;
    template = λ a b. same_images a.spec.containers b.spec.containers;
  };
}

abbrev deployment_of : String → ℤ → Deployment
deployment_of image replicas = record test_deployment {
  replicas = some replicas;
  template = record test_template {
    spec = record test_template.spec { containers = container_with "auth" image ∷ [] };
  };
}

-- Another image and another number of replicas.
abbrev old_deployment : Deployment
old_deployment = server_defaults (deployment_of "auth:1" (pos 1))

abbrev new_deployment : Deployment
new_deployment = deployment_of "auth:2" (pos 3)

abbrev updated_deployment : Deployment
updated_deployment = server_defaults (record old_deployment {
  replicas = some (pos 3);
  template = normalize_pod_template_defaults new_deployment.template;
})

deployment-test :
    create_or_update_deployment comparing server plain_project
      (some new_deployment)
      (some old_deployment)
    ≡ (ok tt, some updated_deployment)
unfolding create_or_update_deployment ◌>>=◌ lift own create_or attempt
deployment-test = refl

create_or_update_deployment-Has_example :
    (stored : Deployment) × (server.get (key_of new_deployment.meta) (some updated_deployment)
      ≡ ok stored)
    × (same_replicas stored.replicas (some (pos 3)) ≡ true)
    × (same_images
          (normalize_pod_template_defaults stored.template).spec.containers
          (normalize_pod_template_defaults new_deployment.template).spec.containers
        ≡ true)
create_or_update_deployment-Has_example =
    create_or_update_deployment-Has comparing server server_defaults server-IsFillingStore
      same_replicas_refl (λ t. same_images_refl t.spec.containers) plain_project new_deployment
      (pos 3) refl (server-Covers new_deployment.template) (some old_deployment)
      (some updated_deployment) deployment-test
