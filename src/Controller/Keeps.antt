-- ===== src/Controller/Keeps.antt =====
-- Properties of the project's status that a step leaves true, whatever its result.
use cloudnative_supabase.Prelude.{
  Bool, true, false, List, Result, ok, err, Error, String, Result-cases, inl, inr, if◌then◌else◌,
}
use cloudnative_supabase.Kube.Meta.{Condition}
use cloudnative_supabase.Api.Status.{SupabaseProjectStatus}
use cloudnative_supabase.Api.Project.{SupabaseProject}
use cloudnative_supabase.Controller.Effects.{
  Effect, continue, resume, ◌>>=◌, ◌>>◌, lift, done, rescue, attempt, Client, Machinery, key_of,
}
use cloudnative_supabase.Controller.State.{
  State, with_status, requeue, with_condition, on_world, with_project, place, modify_status,
  set_condition, remove_condition, update_project_status, fail_condition, wait_condition,
}

-- The property does not depend on the conditions.
abbrev pub IgnoresConditions : (SupabaseProject → Type 0) → Type 0
IgnoresConditions P =
    (project : SupabaseProject) (conditions : List Condition)
    → P project
    → P (with_status (λ status. record status { conditions = conditions }) project)

module _ (W : Type 0) (P : SupabaseProject → Type 0) where
  abbrev pub Holds : {A : Type 0} → Result A × State W → Type 0
  Holds outcome = P outcome.1.project

  unfoldable pub Keeps : {A : Type 0} → Effect (State W) A → Type 0
  Keeps m = (state : State W) → P state.project → Holds (m state)

  continue-Holds :
      {A B : Type 0} (outcome : Result A × State W) (next : A → Effect (State W) B)
      → Holds outcome
      → ((a : A) → Keeps (next a))
      → Holds (continue outcome next)
  unfolding Keeps
  continue-Holds (ok a, state) next h k = k a state h
  continue-Holds (err e, state) next h k = h

  pub bind-Keeps :
      {A B : Type 0} (m : Effect (State W) A) (next : A → Effect (State W) B)
      → Keeps m
      → ((a : A) → Keeps (next a))
      → Keeps (m >>= next)
  unfolding Keeps ◌>>=◌
  bind-Keeps m next h k state p = continue-Holds (m state) next (h state p) k

  pub then-Keeps :
      {B : Type 0} (m : Effect (State W) (Unit {0})) (next : Effect (State W) B)
      → Keeps m
      → Keeps next
      → Keeps (m >> next)
  unfolding ◌>>◌
  then-Keeps m next h k = bind-Keeps m (λ _. next) h (λ _. k)

  resume-Holds :
      {A : Type 0} (outcome : Result A × State W) (handle : Error → Effect (State W) A)
      → Holds outcome
      → ((e : Error) → Keeps (handle e))
      → Holds (resume outcome handle)
  unfolding Keeps
  resume-Holds (ok a, state) handle h k = h
  resume-Holds (err e, state) handle h k = k e state h

  pub rescue-Keeps :
      {A : Type 0} (m : Effect (State W) A) (handle : Error → Effect (State W) A)
      → Keeps m
      → ((e : Error) → Keeps (handle e))
      → Keeps (rescue m handle)
  unfolding Keeps rescue
  rescue-Keeps m handle h k state p = resume-Holds (m state) handle (h state p) k

  pub lift-Keeps : {A : Type 0} (result : Result A) → Keeps (lift result)
  unfolding Keeps lift
  lift-Keeps result state p = p

  pub done-Keeps : Keeps done
  unfolding Keeps done
  done-Keeps state p = p

  -- A step that only reads.
  pub read-Keeps : {A : Type 0} (read : State W → Result A) → Keeps (λ state. (read state, state))
  unfolding Keeps
  read-Keeps read state p = p

  place-Holds :
      {A : Type 0} (project : SupabaseProject) (outcome : Result A × W)
      → P project
      → Holds (place project outcome)
  place-Holds project (result, world) p = p

  pub on_world-Keeps : {A : Type 0} (m : Effect W A) → Keeps (on_world m)
  unfolding Keeps on_world
  on_world-Keeps m state p = place-Holds state.project (m state.world) p

  pub with_project-Keeps :
      {A : Type 0} (m : SupabaseProject → Effect (State W) A)
      → ((project : SupabaseProject) → Keeps (m project))
      → Keeps (with_project m)
  unfolding Keeps with_project
  with_project-Keeps m h state p = h state.project state p

  pub modify_status-Keeps :
      (f : SupabaseProjectStatus → SupabaseProjectStatus)
      → ((project : SupabaseProject) → P project → P (with_status f project))
      → Keeps (modify_status f)
  unfolding Keeps modify_status
  modify_status-Keeps f h state p = h state.project p

  pub if-Keeps :
      {A : Type 0} (test : Bool) (m n : Effect (State W) A)
      → Keeps m
      → Keeps n
      → Keeps (if test then m else n)
  if-Keeps true m n h k = h
  if-Keeps false m n h k = k

  pub attempt-Keeps :
      {A B : Type 0} (read : State W → Result A) (next : A → Effect (State W) B)
      (failed : Error → Effect (State W) B)
      → ((a : A) → Keeps (next a))
      → ((e : Error) → Keeps (failed e))
      → Keeps (attempt read next failed)
  unfolding Keeps attempt
  attempt-Keeps read next failed h k state p = elim (Result-cases (read state)) [
    | inl (a, e) ↦ rw (e, attempt) (h a state p)
    | inr (error, e) ↦ rw (e, attempt) (k error state p)
  ]

  pub update_project_status-Keeps :
      (machinery : Machinery) (client : Client W) → Keeps (update_project_status machinery client)
  unfolding update_project_status
  update_project_status-Keeps machinery client =
      attempt-Keeps (λ state. client.get_project (key_of state.project.metadata) state.world) _ _
        (λ current.
          with_project-Keeps _
            λ project. if-Keeps _ _ _ done-Keeps (on_world-Keeps (client.update_status project)))
        (λ e. lift-Keeps (err e))

  module _ (machinery : Machinery) (client : Client W) (ignores : IgnoresConditions P) where
    pub set_condition-Keeps :
        (type status reason message : String)
        → Keeps (set_condition machinery type status reason message)
    unfolding Keeps set_condition with_condition with_project modify_status
    set_condition-Keeps type status reason message state p = ignores state.project _ p

    pub remove_condition-Keeps : (type : String) → Keeps (remove_condition machinery type)
    unfolding Keeps modify_status
    remove_condition-Keeps type state p = ignores state.project _ p

    pub fail_condition-Keeps :
        (A : Type 0) (type reason : String) (e : Error)
        → Keeps (fail_condition machinery {A = A} client type reason e)
    unfolding fail_condition
    fail_condition-Keeps A type reason e =
        then-Keeps _ _
          (then-Keeps _ _ (set_condition-Keeps type "False" reason e.message)
            (update_project_status-Keeps machinery client))
          (lift-Keeps (err e))

    pub wait_condition-Keeps :
        (type reason message : String) → Keeps (wait_condition machinery client type reason message)
    unfolding wait_condition
    wait_condition-Keeps type reason message =
        then-Keeps _ _
          (then-Keeps _ _ (set_condition-Keeps type "False" reason message)
            (update_project_status-Keeps machinery client))
          (lift-Keeps (ok requeue))

    pub reporting-Keeps :
        {A : Type 0} (m : Effect W A) (type reason : String)
        → Keeps (rescue (on_world m) (fail_condition machinery client type reason))
    reporting-Keeps m type reason =
        rescue-Keeps _ _ (on_world-Keeps m) (fail_condition-Keeps _ type reason)
