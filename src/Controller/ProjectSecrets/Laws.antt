-- ===== src/Controller/ProjectSecrets/Laws.antt =====
-- What a refused credential bundle does to the server: internal/controller.
use cloudnative_supabase.Prelude.{
  ℤ, ◌≡◌, refl, sym, subst, ap, ◌∙◌, ◌⊎◌, inl, inr, String, ◌==◌, false, some, List, Result, ok,
  err, Error, Result-cases, Bool-cases, if◌then◌else◌,
}
use cloudnative_supabase.Kube.Meta.{Bytes, Condition}
use cloudnative_supabase.Kube.Core.{Secret}
use cloudnative_supabase.Api.Project.{SupabaseProject}
use cloudnative_supabase.Crypto.Library.{Library}
use cloudnative_supabase.Crypto.Random.{RandomSource}
use cloudnative_supabase.Secrets.Credentials.{ProjectCredentials, validate_project_credentials}
use cloudnative_supabase.Controller.Durable.{in_namespace}
use cloudnative_supabase.Controller.Effects.{
  Effect, continue, ◌>>=◌, ◌>>◌, lift, done, rescue, attempt, Client, Machinery, key_of,
}
use cloudnative_supabase.Controller.State.{
  State, with_status, on_world, with_project, modify_status, set_condition, with_condition,
  update_project_status,
}
use cloudnative_supabase.Controller.ProjectSecrets.{
  fail_reconcile_secrets, read_credentials, reconcile_secrets,
}

module _ {W : Type 0} (machinery : Machinery) (client : Client W) where
  abbrev set_secrets_false : SupabaseProject → String → String → List Condition → List Condition
  set_secrets_false project reason message conditions =
      machinery.set_status_condition
        (record {
          type = "Ready";
          status = "False";
          observed_generation = project.generation;
          reason = "SecretsNotReady";
          message = "Project credentials and implementation secrets are not ready";
        })
        (machinery.set_status_condition
          (record {
            type = "SecretsReady";
            status = "False";
            observed_generation = project.generation;
            reason = reason;
            message = message;
          })
          conditions)

  -- The error that is returned, the conditions that the project is left with, and the server, which
  -- has at most a new status of the project.
  pub record IsRefused {A : Type 0} (before : State W) (outcome : Result A × State W) : Type 0 where
    pub error : Error
    pub failed : outcome.0 ≡ err error
    pub reason : String
    pub message : String
    pub conditions :
        outcome.1.project.status.conditions
        ≡ set_secrets_false before.project reason message before.project.status.conditions
    pub written :
        (outcome.1.world ≡ before.world)
        ⊎ (outcome.1.world ≡ (client.update_status outcome.1.project before.world).1)

  -- What is left of a status update, whatever its result.
  update_outcome :
      (before : State W)
      → ((update_project_status machinery client before).1.project ≡ before.project)
        × (((update_project_status machinery client before).1.world ≡ before.world)
            ⊎ ((update_project_status machinery client before).1.world
                ≡ (client.update_status before.project before.world).1))
  unfolding update_project_status attempt with_project on_world done lift
  update_outcome before =
      elim (Result-cases (client.get_project (key_of before.project.metadata) before.world)) [
        | inr (e, f) ↦ (rw (f, attempt) refl, inl (rw (f, attempt) refl))
        | inl (current, f) ↦
            elim (Bool-cases (machinery.equal.status current.status before.project.status)) [
              | inl b ↦ (rw (f, attempt, b) refl, inl (rw (f, attempt, b) refl))
              | inr b ↦ (rw (f, attempt, b) refl, inr (rw (f, attempt, b) refl))
            ]
      ]

  then_fail :
      {A : Type 0} (e : Error) (outcome : Result (Unit {0}) × State W)
      → (error : Error) × (continue outcome (λ _. lift {A = A} (err e)) ≡ (err error, outcome.1))
  unfolding lift
  then_fail e (ok tt, state) = (e, refl)
  then_fail e (err error, state) = (error, refl)

  fail-IsRefused :
      {A : Type 0} (reason message : String) (e : Error) (before : State W)
      → IsRefused before (fail_reconcile_secrets machinery client {A = A} reason message e before)
  unfolding fail_reconcile_secrets ◌>>◌ ◌>>=◌ set_condition with_condition with_project
      modify_status
  fail-IsRefused {A} reason message e before =
      let project = before.project in
      let marked : State W = record before {
        project =
            with_status
              (λ status. record status {
                conditions = set_secrets_false project reason message status.conditions;
              })
              project;
      } in
      let (error, shape) = then_fail {A = A} e (update_project_status machinery client marked) in
      let (kept, written) = update_outcome marked in
      subst (IsRefused before) (sym shape) (record {
        error = error;
        failed = refl;
        reason = reason;
        message = message;
        conditions = ap (λ p. p.status.conditions) kept;
        written = elim written [
          | inl same ↦ inl same
          | inr new ↦ inr (new ∙ ap (λ p. (client.update_status p before.world).1) (sym kept))
        ];
      })

  continue-IsRefused :
      {A B : Type 0} (before : State W) (outcome : Result A × State W)
      (next : A → Effect (State W) B)
      → IsRefused before outcome
      → IsRefused before (continue outcome next)
  continue-IsRefused before (ok a, state) next refused = cc
  continue-IsRefused before (err e, state) next refused = record {
    error = e;
    failed = refl;
    reason = refused.reason;
    message = refused.message;
    conditions = refused.conditions;
    written = refused.written;
  }

  module _ (source : RandomSource W) (trim_space : Bytes → Bytes) (lib : Library) where
    -- If the Secret that a project names as its credentials is there but is not a valid bundle, then
    -- the phase of the secrets ends in an error, the project has the conditions "SecretsReady" and
    -- "Ready" set to false, and the server is as it was, but for a status of the project: no
    -- Secret, workload or other object is written.
    pub reconcile_secrets-IsRefused :
        (anon_now service_now : ℤ) (before : State W) (external : Secret) (e : Error)
        → (before.project.spec.project_credentials_secret == "") ≡ false
        → client.secrets.get
            (in_namespace before.project before.project.spec.project_credentials_secret)
            before.world
          ≡ ok external
        → validate_project_credentials lib anon_now service_now (some external) ≡ err e
        → IsRefused before
            (reconcile_secrets machinery client source trim_space lib anon_now service_now before)
    unfolding reconcile_secrets read_credentials ◌>>◌ ◌>>=◌ modify_status with_project rescue lift
    reconcile_secrets-IsRefused anon_now service_now before external e named found invalid =
        let started : State W = record before {
          project =
              with_status
                (λ status. record status {
                  phase = if status.phase == "Pending" then "Provisioning" else status.phase;
                })
                before.project;
        } in
        let refused =
          continue-IsRefused {A = ProjectCredentials} {B = ProjectCredentials} started
            (fail_reconcile_secrets machinery client "InvalidProjectCredentials" e.message e
              started)
            _ (fail-IsRefused "InvalidProjectCredentials" e.message e started) in
        rw (named, found, invalid)
          (record {
            error = refused.error;
            failed = refused.failed;
            reason = refused.reason;
            message = refused.message;
            conditions = refused.conditions;
            written = refused.written;
          })
