-- ===== src/Tests/Effects.antt =====
-- Single steps of the reconciler on the test server.
use cloudnative_supabase.Controller.Effects.{rescue}
use cloudnative_supabase.Crypto.Random.{generate_webhook_secret}
use cloudnative_supabase.Controller.Effects.{◌>>=◌, lift, own, attempt, ◌>>◌, done}
use cloudnative_supabase.Prelude.{bytes_eq}
use cloudnative_supabase.Controller.Ownership.{merge_labels}
use cloudnative_supabase.Controller.Apply.Jobs.{check_conditions}
use cloudnative_supabase.Prelude.{
  ◌≡◌, refl, ◌⊎◌, ap, subst, length, zero, suc, ◌++◌, true, some, List, [], ◌∷◌, ok, err, pos, ℕ,
  codes,
}
use cloudnative_supabase.Prelude.Maps.{lookup}
use cloudnative_supabase.Kube.Meta.{or_empty, NamespacedName, OwnerReference}
use cloudnative_supabase.Kube.Core.{Job, Deployment}
use cloudnative_supabase.Kube.Cnpg.{Cluster}
use cloudnative_supabase.Common.Names.{email_hook_secret_name}
use cloudnative_supabase.Api.Project.{label_instance}
use cloudnative_supabase.Crypto.Library.{Library}
use cloudnative_supabase.Crypto.Random.{Read}
use cloudnative_supabase.Prelude.{Result}
use cloudnative_supabase.Cnpg.Cluster.{build_cluster}
use cloudnative_supabase.Secrets.Credentials.{field_error}
use cloudnative_supabase.Secrets.Generation.{Generated, opaque_secret, generate_email_hook_secret}
use cloudnative_supabase.Secrets.Generation.Laws.{Fills, generate-validate_email_hook_secret}
use cloudnative_supabase.Secrets.Implementation.{validate_email_hook_secret}
use cloudnative_supabase.Controller.Ownership.{label_of}
use cloudnative_supabase.Controller.Effects.{Client, key_of}
use cloudnative_supabase.Controller.State.{State}
use cloudnative_supabase.Controller.Apply.Secrets.{create_or_update_secret}
use cloudnative_supabase.Controller.Apply.Laws.{create_or_update_secret_keeps_data}
use cloudnative_supabase.Controller.Apply.Jobs.{create_or_check_job, cdc_script_hash_annotation}
use cloudnative_supabase.Controller.Apply.Jobs.Laws.{IsCompleted, create_or_check_job-IsCompleted}
use cloudnative_supabase.Controller.Powersync.{delete_power_sync_owned_resource}
use cloudnative_supabase.Controller.Powersync.Laws.{delete_power_sync_owned_resource_controlled}
use cloudnative_supabase.Controller.ProjectSecrets.{reconcile_secrets}
use cloudnative_supabase.Controller.ProjectSecrets.Laws.{IsRefused, reconcile_secrets-IsRefused}
use cloudnative_supabase.Tests.Keys.{test_library}
use cloudnative_supabase.Tests.Bundle.{bundle_with, unexpected-test}
use cloudnative_supabase.Tests.Operator.{
  test_machinery, client_with, plain_project, plain_names, plain_cluster, test_job, everywhere,
  test_source, repeat,
}

abbrev client : Client ℕ
client = client_with plain_cluster

abbrev any_key : NamespacedName
any_key = record { name = "a"; namespace = "prod" }

create_or_update_secret_keeps_data_example :
    ((create_or_update_secret test_machinery client.secrets plain_project (bundle_with []) 0).1 ≡ 0)
    ⊎ ((owners : List OwnerReference) × (create_or_update_secret test_machinery client.secrets
            plain_project
            (bundle_with [])
            0
          ≡ client.secrets.update
              (record (bundle_with []) {
                meta = record (bundle_with []).meta { owner_references = owners };
              })
              0))
create_or_update_secret_keeps_data_example =
    create_or_update_secret_keeps_data test_machinery client.secrets plain_project (bundle_with [])
      (bundle_with []) 0 refl

job-test : create_or_check_job test_machinery client plain_project test_job [] 0 ≡ (ok true, 0)
unfolding create_or_check_job ◌>>=◌ lift own attempt lookup bytes_eq ◌>>◌ merge_labels done
    check_conditions
job-test = refl

create_or_check_job-IsCompleted_example :
    (existing : Job) × (client.jobs.get (key_of test_job.meta) 0 ≡ ok existing)
    × (label_of label_instance existing.meta.labels ≡ plain_project.name)
    × (or_empty (lookup cdc_script_hash_annotation existing.meta.annotations) ≡ [])
    × IsCompleted existing.conditions
create_or_check_job-IsCompleted_example =
    create_or_check_job-IsCompleted test_machinery client plain_project test_job [] 0 0 job-test

delete_power_sync_owned_resource_controlled_example :
    ((delete_power_sync_owned_resource test_machinery client.deployments
        (λ d. d.meta)
        plain_project
        any_key
        0).1
      ≡ 0)
    ⊎ ((existing : Deployment) × (client.deployments.get any_key 0 ≡ ok existing)
        × (test_machinery.is_controlled_by existing.meta.owner_references plain_project ≡ true)
        × ((delete_power_sync_owned_resource test_machinery client.deployments
              (λ d. d.meta)
              plain_project
              any_key
              0).1
            ≡ (client.deployments.delete existing 0).1))
delete_power_sync_owned_resource_controlled_example =
    delete_power_sync_owned_resource_controlled test_machinery client.deployments (λ d. d.meta)
      plain_project any_key 0

abbrev named : State ℕ
named = record {
  project = record plain_project {
    status = record plain_project.status { secret_names = plain_names };
  };
  world = 0;
}

abbrev built : Cluster
built = build_cluster named.project plain_names

-- Base64 that encodes a value as itself.
abbrev plain_library : Library
plain_library = record test_library { std_decode = λ value. ok value }

abbrev generated : Generated
generated = record {
  secret =
      opaque_secret plain_project "shop-email-hook" "email-hook"
        (("secret", codes "v1,whsec_" ++ repeat 32) ∷ []) [];
  name = "shop-email-hook";
}

generate-test : generate_email_hook_secret test_source plain_project 0 ≡ (ok generated, 0)
unfolding generate_email_hook_secret ◌>>=◌ rescue generate_webhook_secret lift
    email_hook_secret_name
generate-test = refl

repeat-length : (n : ℕ) → length (repeat n) ≡ n
repeat-length zero = refl
repeat-length (suc n) = ap suc (repeat-length n)

-- The read that a result holds.
abbrev read_in : Result Read → Read
read_in (ok read) = read
read_in (err e) = record { buffer = []; count = 0 }

fills : Fills test_source
fills n before after read h =
    subst (λ r. length r.buffer ≡ n) (ap (λ o. read_in o.0) h) (repeat-length n)

generate-validate_email_hook_secret_example :
    (generated.secret.meta.name ≡ email_hook_secret_name plain_project)
    × (validate_email_hook_secret plain_library (some generated.secret) ≡ ok tt)
generate-validate_email_hook_secret_example =
    generate-validate_email_hook_secret test_source plain_library fills (λ bytes. refl)
      plain_project 0 0 generated generate-test

abbrev refused : State ℕ
refused = record { project = plain_project; world = 0 }

abbrev refusing : Client ℕ
refusing = record client { secrets = everywhere (bundle_with (("extra", []) ∷ [])) }

reconcile_secrets-IsRefused_example : IsRefused test_machinery refusing refused (
    reconcile_secrets test_machinery refusing test_source
      (λ bytes. bytes)
      test_library
      (pos 5)
      (pos 6)
      refused)
reconcile_secrets-IsRefused_example =
    reconcile_secrets-IsRefused test_machinery refusing test_source (λ bytes. bytes) test_library
      (pos 5) (pos 6) refused (bundle_with (("extra", []) ∷ []))
      (field_error "extra" "unexpected field") refl refl unexpected-test
