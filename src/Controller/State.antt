-- ===== src/Controller/State.antt =====
-- The state of one reconciliation: the project in memory, which the steps write to, and the server.
-- `setCondition` and `updateProjectStatus` of internal/controller/supabaseproject_controller.go, and
-- the condition types of api/v1alpha1/supabaseproject_types.go
use cloudnative_supabase.Prelude.{String, Result, ok, err, Error, if◌then◌else◌}
use cloudnative_supabase.Api.Status.{SupabaseProjectStatus}
use cloudnative_supabase.Api.Project.{SupabaseProject}
use cloudnative_supabase.Controller.Effects.{
  Effect, ◌>>◌, lift, done, attempt, Client, Machinery, key_of,
}

pub record State (W : Type 0) : Type 0 where
  pub project : SupabaseProject
  pub world : W

-- `ctrl.Result{}`, or the same with `RequeueAfter: RequeueDelay`.
pub data Next : Type 0 where
  proceed : Next
  requeue : Next

abbrev pub place : {W A : Type 0} → SupabaseProject → Result A × W → Result A × State W
place project (result, world) = (result, record { project = project; world = world })

-- An effect that only concerns the server.
unfoldable pub on_world : {W A : Type 0} → Effect W A → Effect (State W) A
on_world m = λ state. place state.project (m state.world)

unfoldable pub with_project :
    {W A : Type 0} → (SupabaseProject → Effect (State W) A) → Effect (State W) A
with_project m = λ state. m state.project state

-- An effect on the server that reads the project.
unfoldable pub for_project : {W A : Type 0} → (SupabaseProject → Effect W A) → Effect (State W) A
for_project m = λ state. place state.project (m state.project state.world)

abbrev pub with_status :
    (SupabaseProjectStatus → SupabaseProjectStatus) → SupabaseProject → SupabaseProject
with_status f project = record project { status = f project.status }

unfoldable pub modify_status :
    {W : Type 0} → (SupabaseProjectStatus → SupabaseProjectStatus) → Effect (State W) (Unit {0})
modify_status f = λ state. (ok tt, record state { project = with_status f state.project })

-- The conditions of a status with one more.
unfoldable pub with_condition :
    Machinery
    → SupabaseProject
    → String
    → String
    → String
    → String
    → SupabaseProjectStatus
    → SupabaseProjectStatus
with_condition machinery project type status reason message before = record before {
  conditions =
      machinery.set_status_condition
        (record {
          type = type;
          status = status;
          observed_generation = project.generation;
          reason = reason;
          message = message;
        })
        before.conditions;
}

module _ {W : Type 0} (machinery : Machinery) where
  unfoldable pub set_condition : String → String → String → String → Effect (State W) (Unit {0})
  unfolding with_condition
  set_condition type status reason message =
      with_project
        λ project. modify_status (with_condition machinery project type status reason message)

  abbrev pub remove_condition : String → Effect (State W) (Unit {0})
  remove_condition type = modify_status λ status. record status {
    conditions = machinery.remove_status_condition type status.conditions;
  }

  -- Written only if it differs from what is stored.
  unfoldable pub update_project_status : Client W → Effect (State W) (Unit {0})
  update_project_status client =
      attempt (λ state. client.get_project (key_of state.project.metadata) state.world)
        (λ current. with_project λ project.
          if machinery.equal.status current.status project.status
          then done
          else on_world (client.update_status project))
        (λ e. lift (err e))

  -- The condition becomes false, the status is written, and the error is returned.
  unfoldable pub fail_condition :
      {A : Type 0} → Client W → String → String → Error → Effect (State W) A
  unfolding set_condition update_project_status
  fail_condition client type reason e =
      set_condition type "False" reason e.message >> update_project_status client >> lift (err e)

  -- The same for a wait: the status is written, and the project is looked at again later.
  unfoldable pub wait_condition : Client W → String → String → String → Effect (State W) Next
  unfolding set_condition update_project_status
  wait_condition client type reason message =
      set_condition type "False" reason message >> update_project_status client >> lift (ok requeue)
