-- ===== src/Controller/Apply/Jobs/Laws.antt =====
-- When the Job of the CDC permissions counts as done: internal/controller.
use cloudnative_supabase.Prelude.{
  ◌≡◌, sym, subst, inl, inr, String, ◌==◌, eq_iff, Bool, true, false, ◌&&◌, ◌||◌, List, [], ◌∷◌,
  Result, ok, err, Bool-cases, arith, bytes_eq, bytes_eq_iff,
}
use cloudnative_supabase.Prelude.Maps.{lookup}
use cloudnative_supabase.Kube.Meta.{Bytes, or_empty, ObjectMeta, OwnerReference}
use cloudnative_supabase.Kube.Core.{Job, JobCondition}
use cloudnative_supabase.Api.Project.{SupabaseProject, label_instance}
use cloudnative_supabase.Controller.Ownership.{label_of}
use cloudnative_supabase.Controller.Apply.Jobs.{
  check_conditions, check_job, check_hash, create_or_check_job, cdc_script_hash_annotation,
  annotate,
}
use cloudnative_supabase.Controller.Effects.{
  Client, Machinery, key_of, lift, bind_run, then_run, if_run, attempt_run, lift_run, error_run,
  own, map_ok,
}

-- A condition that is true and ends a Job.
abbrev pub terminal : JobCondition → Bool
terminal condition =
    condition.status == "True" && (condition.type == "Complete" || condition.type == "Failed")

-- The first terminal condition is "Complete".
pub data IsCompleted : List JobCondition → Type 0 where
  here :
      {condition : JobCondition} {conditions : List JobCondition}
      → condition.status ≡ "True"
      → condition.type ≡ "Complete"
      → IsCompleted (condition ∷ conditions)
  later :
      {condition : JobCondition} {conditions : List JobCondition}
      → terminal condition ≡ false
      → IsCompleted conditions
      → IsCompleted (condition ∷ conditions)

pub check_conditions-IsCompleted :
    (name : String) (conditions : List JobCondition)
    → check_conditions name conditions ≡ ok true
    → IsCompleted conditions
unfolding check_conditions
check_conditions-IsCompleted name [] h = cc
check_conditions-IsCompleted name (condition ∷ conditions) h =
    elim (Bool-cases (terminal condition)) [
      | inl t ↦
          here (ground (arith, eq_iff condition.status "True"))
            (ground (arith, eq_iff condition.type "Complete", eq_iff condition.status "True"))
      | inr t ↦ later t (check_conditions-IsCompleted name conditions (ground arith))
    ]

false_run : {W Q : Type 0} (before : W) {after : W} → lift (ok false) before ≡ (ok true, after) → Q
unfolding lift
false_run before h = cc

-- An adoption only changes the owners.
own-annotations :
    (machinery : Machinery) (project : SupabaseProject) (meta : ObjectMeta) {owned : ObjectMeta}
    → own machinery project meta ≡ ok owned
    → owned.annotations ≡ meta.annotations
unfolding own
own-annotations machinery project meta {owned} h =
    go (machinery.set_controller_reference project (key_of meta) meta.owner_references) h
  where
    go :
        (owners : Result (List OwnerReference))
        → map_ok (λ o. record meta { owner_references = o }) owners ≡ ok owned
        → owned.annotations ≡ meta.annotations
    go (ok o) e = cc
    go (err e) f = cc

module _ {W : Type 0} (machinery : Machinery) (client : Client W) where
  check_hash_run :
      (job : Job) (hash : Bytes) (existing : Job) (changed : Bool) (before after : W)
      → check_hash machinery client job hash existing changed before ≡ (ok true, after)
      → (or_empty (lookup cdc_script_hash_annotation existing.meta.annotations) ≡ hash)
        × IsCompleted existing.conditions
  unfolding check_hash
  check_hash_run job hash existing changed before after h =
      let found = or_empty (lookup cdc_script_hash_annotation existing.meta.annotations) in
      if_run (bytes_eq found hash) _ _ h
        (λ e g. then_run _ _ g λ between f l. (
          (bytes_eq_iff found hash).0 e,
          check_conditions-IsCompleted job.meta.name existing.conditions ((lift_run _ l).0),
        ))
        (λ e g. then_run _ _ g λ between f l. false_run _ l)

  -- A Job that is reported as completed is there, under the name and the namespace of the desired one;
  -- it carries the label of the project and the hash of the script, and the first of its conditions
  -- that is true and ends a Job says "Complete".
  pub create_or_check_job-IsCompleted :
      (project : SupabaseProject) (job : Job) (hash : Bytes) (before after : W)
      → create_or_check_job machinery client project job hash before ≡ (ok true, after)
      → (existing : Job) × (client.jobs.get (key_of job.meta) before ≡ ok existing)
        × (label_of label_instance existing.meta.labels ≡ project.name)
        × (or_empty (lookup cdc_script_hash_annotation existing.meta.annotations) ≡ hash)
        × IsCompleted existing.conditions
  unfolding create_or_check_job check_job own
  create_or_check_job-IsCompleted project job hash before after h = bind_run _ _ h λ meta s1 e1 g1.
      attempt_run _ _ _ g1
        (λ existing found g2.
          if_run (label_of label_instance existing.meta.labels == project.name) _ _ g2
            (λ label g3. bind_run _ _ g3 λ adopted s2 e2 g4.
              let (annotation, completed) =
                check_hash_run (annotate machinery client meta hash job) hash _ _ s2 after g4 in
              (
                existing,
                subst (λ w. client.jobs.get (key_of job.meta) w ≡ ok existing)
                    (sym (lift_run _ e1).1) found,
                (eq_iff _ _).0 label,
                subst (λ a. or_empty (lookup cdc_script_hash_annotation a) ≡ hash)
                    (own-annotations machinery project existing.meta ((lift_run _ e2).0))
                    annotation,
                completed,
              ))
            (λ label g3. error_run _ _ g3))
        (λ e absent g2.
          if_run e.is_not_found _ _ g2 (λ t g3. then_run _ _ g3 λ s2 f l. false_run _ l)
            (λ t g3. error_run e _ g3))
