-- ===== src/Controller/Apply/Jobs.antt =====
-- `createOrCheckJob` of internal/controller/supabaseproject_controller.go
pub mod Laws
use cloudnative_supabase.Prelude.{
  String, ◌<>◌, ◌==◌, Bool, true, false, ◌||◌, not, Result, ok, err, errorf, List, [], ◌∷◌,
  bytes_eq, if◌then◌else◌,
}
use cloudnative_supabase.Prelude.Maps.{lookup, insert}
use cloudnative_supabase.Kube.Meta.{Bytes, ObjectMeta, or_empty}
use cloudnative_supabase.Kube.Core.{Job, JobCondition}
use cloudnative_supabase.Api.Project.{SupabaseProject, label_instance}
use cloudnative_supabase.Controller.Ownership.{label_of, merge_labels}
use cloudnative_supabase.Controller.Effects.{
  Effect, ◌>>=◌, ◌>>◌, lift, done, ignore_not_found, wrap_error, attempt, if_not_found, Client,
  Machinery, own, key_of,
}

abbrev pub cdc_script_hash_annotation : String
cdc_script_hash_annotation = "supabase.guion.dev/cdc-script-hash"

-- The loop over the conditions of a Job: the first terminal one that is true decides.
unfoldable pub check_conditions : String → List JobCondition → Result Bool
check_conditions name [] = ok false
check_conditions name (condition ∷ conditions) =
    let rest = check_conditions name conditions in
    if condition.status == "True"
    then if condition.type == "Complete"
      then ok true
      else if condition.type == "Failed"
      then err (errorf ("job " <> name <> " has failed: " <> condition.message))
      else rest
    else rest

module _ {W : Type 0} (machinery : Machinery) (client : Client W) where
  unfoldable pub update_job : Bool → Job → Effect W (Unit {0})
  update_job changed job =
      if changed
      then wrap_error "updating CDC permissions Job metadata" (client.jobs.update job)
      else done

  -- A Job of the same script: its conditions decide. Another is deleted, and made again later.
  unfoldable pub check_hash : Job → Bytes → Job → Bool → Effect W Bool
  unfolding update_job
  check_hash job script_hash existing changed =
      if bytes_eq (or_empty (lookup cdc_script_hash_annotation existing.meta.annotations))
        script_hash
      then (update_job changed existing
          >> lift (check_conditions job.meta.name existing.conditions))
      else (wrap_error ("failed to delete outdated Job " <> job.meta.name)
            (ignore_not_found (client.delete_in_foreground existing))
          >> lift (ok false))

  -- The label and the owners come first.
  unfoldable pub check_job : SupabaseProject → Job → Bytes → Job → Effect W Bool
  unfolding check_hash
  check_job project job script_hash existing =
      if label_of label_instance existing.meta.labels == project.name
      then (lift (own machinery project existing.meta) >>= λ meta.
          let labels = merge_labels existing.meta.labels job.meta.labels in
          check_hash job script_hash (record existing { meta = record meta { labels = labels.0 } })
            (not (machinery.equal.owners existing.meta.owner_references meta.owner_references)
              || labels.1))
      else lift (
          err (
            errorf (
              "refusing to adopt Job " <> existing.meta.name
              <> " without the project instance label")))

  -- The Job as it is created: with its owner and the hash.
  unfoldable pub annotate : ObjectMeta → Bytes → Job → Job
  annotate meta script_hash job = record job {
    meta = record meta {
      annotations = insert cdc_script_hash_annotation script_hash meta.annotations;
    };
  }

  unfoldable pub create_or_check_job : SupabaseProject → Job → Bytes → Effect W Bool
  unfolding check_job annotate
  create_or_check_job project job script_hash = lift (own machinery project job.meta) >>= λ meta.
      attempt (client.jobs.get (key_of job.meta))
        (check_job project (annotate meta script_hash job) script_hash)
        (if_not_found (client.jobs.create (annotate meta script_hash job) >> lift (ok false)))
