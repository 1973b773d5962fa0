-- ===== src/Controller/Reconcile/Laws.antt =====
-- What a reconciliation that comes to its end says of the project: internal/controller.
use cloudnative_supabase.Prelude.{
  ◌≡◌, refl, sym, subst, ap, true, List, ok, ℤ, Bool-cases, inl, inr,
}
use cloudnative_supabase.Kube.Meta.{Condition}
use cloudnative_supabase.Api.Project.{SupabaseProject}
use cloudnative_supabase.Controller.Readiness.{core_services_ready}
use cloudnative_supabase.Controller.Effects.{Effect, lift, Machinery, bind_run, then_run}
use cloudnative_supabase.Controller.State.{State, Next, proceed, requeue, with_project}
use cloudnative_supabase.Controller.Reconcile.{
  Reconciler, follow, ◌>=>◌, phases, complete, mark_running, core_services_step, power_sync_step,
}
use cloudnative_supabase.Controller.Reconcile.Phase.{power_sync_step-Keeps}
use cloudnative_supabase.Controller.Keeps.{Keeps, update_project_status-Keeps}

-- The phase, the generation and the condition of a project that runs.
pub record IsRunning (machinery : Machinery) (project : SupabaseProject) : Type 0 where
  pub runs : project.status.phase ≡ "Running"
  pub observed : project.status.observed_generation ≡ project.generation
  pub services_ready : core_services_ready project ≡ true
  pub others : List Condition
  pub ready :
      project.status.conditions
      ≡ machinery.set_status_condition
          (record {
            type = "Ready";
            status = "True";
            observed_generation = project.generation;
            reason = "AllComponentsReady";
            message = "All Supabase components are running";
          })
          others

next_run :
    {W Q : Type 0} (next : Next) (rest : Effect (State W) Next) {between after : State W}
    → follow next rest between ≡ (ok proceed, after)
    → (next ≡ proceed → rest between ≡ (ok proceed, after) → Q)
    → Q
unfolding follow lift
next_run proceed rest g k = k refl g
next_run requeue rest g k = cc

-- A step that does not ask to be repeated, and what follows it.
gate_run :
    {W Q : Type 0} (m rest : Effect (State W) Next) {before after : State W}
    → (m >=> rest) before ≡ (ok proceed, after)
    → ((between : State W)
        → m before ≡ (ok proceed, between)
        → rest between ≡ (ok proceed, after)
        → Q)
    → Q
gate_run m rest {before} h k = bind_run m _ h λ next between e g.
    next_run next rest g λ n. k between (subst (λ next. m before ≡ (ok next, between)) n e)

module _ {W Quantity : Type 0} (r : Reconciler W Quantity) where
  core_services_step_run :
      (before after : State W)
      → core_services_step r before ≡ (ok proceed, after)
      → (after ≡ before) × (core_services_ready before.project ≡ true)
  unfolding with_project lift
  core_services_step_run before after h = elim (Bool-cases (core_services_ready before.project)) [
    | inl e ↦ (sym (ap (λ o. o.1) h), e)
    | inr e ↦ cc
  ]

  mark_running_run :
      (before after : State W)
      → core_services_ready before.project ≡ true
      → mark_running r before ≡ (ok tt, after)
      → IsRunning r.machinery after.project
  unfolding mark_running core_services_ready
  mark_running_run before after services h =
      subst (λ o. IsRunning r.machinery o.1.project) h
        (record {
          runs = refl;
          observed = refl;
          services_ready = services;
          others = before.project.status.conditions;
          ready = refl;
        })

  complete_run :
      (before after : State W)
      → core_services_ready before.project ≡ true
      → complete r before ≡ (ok proceed, after)
      → IsRunning r.machinery after.project
  unfolding complete Keeps lift
  complete_run before after services h = then_run _ _ h λ b e g. then_run _ _ e λ a c d.
      subst (λ o. IsRunning r.machinery o.1.project) g
        (subst (λ o. IsRunning r.machinery o.1.project) d
          (update_project_status-Keeps W (λ p. IsRunning r.machinery p) r.machinery r.client a
            (mark_running_run before a services c)))

  ready_after :
      (before between after : State W)
      → core_services_step r before ≡ (ok proceed, between)
      → power_sync_step r between ≡ (ok proceed, after)
      → core_services_ready after.project ≡ true
  unfolding Keeps core_services_ready
  ready_after before between after h g =
      let (same, ready) = core_services_step_run before between h in
      subst (λ o. core_services_ready o.1.project ≡ true) g
        (power_sync_step-Keeps r (λ p. core_services_ready p ≡ true) (λ p c e. e) (λ p a b e. e)
          between (subst (λ s. core_services_ready s.project ≡ true) (sym same) ready))

  -- A run of the phases that comes to its end leaves the project with the phase "Running", its own
  -- generation as the observed one, all five core services ready, and the condition "Ready" true
  -- for that generation.
  pub phases-IsRunning :
      (anon_now service_now : ℤ) (before after : State W)
      → phases r anon_now service_now before ≡ (ok proceed, after)
      → IsRunning r.machinery after.project
  unfolding phases
  phases-IsRunning anon_now service_now before after h = bind_run _ _ h λ credentials s1 e1 g1.
      then_run _ _ g1 λ s2 e2 g2. gate_run _ _ g2 λ s3 e3 g3. gate_run _ _ g3 λ s4 e4 g4.
        gate_run _ _ g4 λ s5 e5 g5. gate_run _ _ g5 λ s6 e6 g6.
          then_run _ _ e5 λ s7 e7 g7. complete_run s6 after (ready_after s7 s5 s6 g7 e6) g6
