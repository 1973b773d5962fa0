-- ===== src/Controller/Apply/Stored/Deployments.antt =====
-- What the server has after `createOrUpdateDeployment` of
-- internal/controller/supabaseproject_controller.go
use cloudnative_supabase.Prelude.{
  ◌≡◌, sym, subst, ◌∙◌, true, ◌&&◌, Option, some, ok, ℤ, refl, ◌⊎◌, inl, inr,
}
use cloudnative_supabase.Kube.Core.{Deployment, PodTemplateSpec}
use cloudnative_supabase.Api.Project.{SupabaseProject}
use cloudnative_supabase.Controller.Semantic.{Reflexive}
use cloudnative_supabase.Controller.Defaults.{normalize_pod_template_defaults}
use cloudnative_supabase.Controller.Apply.Workloads.{
  create_or_update_deployment, refresh_deployment,
}
use cloudnative_supabase.Controller.Effects.{
  Resource, Machinery, key_of, if_run, lift_bind_run, done_run,
}
use cloudnative_supabase.Controller.Apply.Stored.{
  IsFillingStore, Has, own-key_of, updated, create_or_run, and_left, and_right,
}

-- The fields of a Deployment that the operator owns whatever they are: the template up to its
-- defaults, and the replicas.
pub record Owned : Type 0 where
  pub template : PodTemplateSpec
  pub replicas : Option ℤ

abbrev pub owned_of : Deployment → Owned
owned_of deployment = record {
  template = normalize_pod_template_defaults deployment.template;
  replicas = deployment.replicas;
}

-- How the API server's defaults treat a Deployment: replicas that are given stay, and the defaults
-- of this template are among those that the operator fills in, whether or not it has done so.
pub record Covers (fill : Deployment → Deployment) (template : PodTemplateSpec) : Type 0 where
  pub replicas_kept :
      (new : Deployment) (n : ℤ) → new.replicas ≡ some n → (fill new).replicas ≡ some n
  pub template_covered :
      (new : Deployment)
      → (new.template ≡ template) ⊎ (new.template ≡ normalize_pod_template_defaults template)
      → normalize_pod_template_defaults (fill new).template
        ≡ normalize_pod_template_defaults template

module _ {W : Type 0} (machinery : Machinery) (deployments : Resource W Deployment)
    (fill : Deployment → Deployment)
    (store : IsFillingStore deployments (λ d. d.meta) owned_of fill)
    (replicas_refl : Reflexive machinery.equal.replicas)
    (template_refl : Reflexive machinery.equal.template) (project : SupabaseProject)
    (deployment : Deployment) (n : ℤ) (asked : deployment.replicas ≡ some n)
    (covers : Covers fill deployment.template) where
  abbrev Wanted : Owned → Type 0
  Wanted owned =
      (machinery.equal.replicas owned.replicas deployment.replicas ≡ true)
      × (machinery.equal.template owned.template
            (normalize_pod_template_defaults deployment.template)
          ≡ true)

  -- What the server makes of a Deployment with the desired replicas and template.
  filled_Wanted :
      (new : Deployment)
      → new.replicas ≡ deployment.replicas
      → (new.template ≡ deployment.template)
        ⊎ (new.template ≡ normalize_pod_template_defaults deployment.template)
      → Wanted (owned_of (fill new))
  filled_Wanted new r t = (
    subst (λ x. machinery.equal.replicas x deployment.replicas ≡ true)
        (asked ∙ sym (covers.replicas_kept new n (r ∙ asked))) (replicas_refl deployment.replicas),
    subst
        (λ u.
          machinery.equal.template u (normalize_pod_template_defaults deployment.template) ≡ true)
        (sym (covers.template_covered new t))
        (template_refl (normalize_pod_template_defaults deployment.template)),
  )

  refresh_deployment_run :
      (existing : Deployment) (before after : W)
      → deployments.get (key_of deployment.meta) before ≡ ok existing
      → refresh_deployment machinery deployments project deployment existing before ≡ (ok tt, after)
      → Has deployments (λ d. d.meta) owned_of fill store Wanted (key_of deployment.meta) after
  unfolding refresh_deployment
  refresh_deployment_run existing before after found h = lift_bind_run _ _ h λ owned e g.
      if_run
        (machinery.equal.replicas existing.replicas deployment.replicas
          && (machinery.equal.template (normalize_pod_template_defaults existing.template)
                (normalize_pod_template_defaults deployment.template)
              && _))
        _ _ g
        (λ t f. (
          existing,
          subst (λ w. deployments.get (key_of deployment.meta) w ≡ ok existing) (done_run before f)
              found,
          (and_left _ _ t, and_left _ _ (and_right _ _ t)),
        ))
        (λ t f.
          updated deployments (λ d. d.meta) owned_of fill store Wanted (key_of deployment.meta) _
            before after
            (own-key_of machinery project existing.meta owned e
              ∙ store.keyed (key_of deployment.meta) before existing found)
            (filled_Wanted _ refl (inr refl)) f)

  -- After a step that succeeds, whether it creates, updates or leaves alone, the server has a
  -- Deployment of that name and namespace with the desired replicas and, up to the defaults of pods,
  -- the desired template. This is for a Deployment that says its replicas, and provided that
  -- equality is reflexive, that the server stores what is written after filling in its own
  -- defaults, that these keep replicas that are given, and that its defaults for the desired
  -- template are among those that the operator fills in.
  pub create_or_update_deployment-Has :
      (before after : W)
      → create_or_update_deployment machinery deployments project (some deployment) before
        ≡ (ok tt, after)
      → (stored : Deployment) × (deployments.get (key_of deployment.meta) after ≡ ok stored)
        × (machinery.equal.replicas stored.replicas deployment.replicas ≡ true)
        × (machinery.equal.template
              (normalize_pod_template_defaults stored.template)
              (normalize_pod_template_defaults deployment.template)
            ≡ true)
  unfolding create_or_update_deployment
  create_or_update_deployment-Has before after h = lift_bind_run _ _ h λ owned e g.
      let (stored, found, (replicas, template)) =
        create_or_run deployments (λ d. d.meta) owned_of fill store Wanted (key_of deployment.meta)
          _ _ before after (own-key_of machinery project deployment.meta owned e)
          (filled_Wanted _ refl (inl refl))
          (λ existing found f. refresh_deployment_run existing before after found f) g in
      (stored, found, replicas, template)
