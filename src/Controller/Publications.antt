-- ===== src/Controller/Publications.antt =====
-- `reconcilePowerSyncPublication`, `reconcileCDCPermissions` and the validation of PowerSync's rules,
-- of internal/controller/supabaseproject_controller.go
use cloudnative_supabase.Prelude.{
  String, ◌<>◌, ◌==◌, Bool, true, false, ◌||◌, not, [], Result, ok, err, errorf, wrap, ℤ, pos,
  ◌=ℤ=◌, bytes_eq, if◌then◌else◌,
}
use cloudnative_supabase.Prelude.Maps.{lookup}
use cloudnative_supabase.Kube.Meta.{Bytes, or_empty}
use cloudnative_supabase.Kube.Core.{ConfigMap}
use cloudnative_supabase.Kube.Cnpg.{Publication}
use cloudnative_supabase.Api.Spec.{SyncRulesSpec}
use cloudnative_supabase.Api.Project.{SupabaseProject, label_instance}
use cloudnative_supabase.Cnpg.Backup.{build_power_sync_publication}
use cloudnative_supabase.Crypto.Library.{Library}
use cloudnative_supabase.Crypto.Decimal.{hex}
use cloudnative_supabase.Controller.Apply.Secrets.{create_or_update_config_map}
use cloudnative_supabase.Controller.Apply.Jobs.{create_or_check_job}
use cloudnative_supabase.Controller.Builders.{Builders}
use cloudnative_supabase.Controller.Readiness.{publication_is_applied}
use cloudnative_supabase.Controller.Ownership.{label_of, merge_labels}
use cloudnative_supabase.Controller.Durable.{in_namespace}
use cloudnative_supabase.Controller.Effects.{
  Effect, ◌>>=◌, ◌>>◌, lift, rescue, wrap_error, attempt, if_not_found, Client, Machinery, own,
  key_of,
}
use cloudnative_supabase.Controller.State.{
  State, Next, proceed, requeue, on_world, with_project, set_condition, fail_condition,
  wait_condition,
}

-- What the operator reads of the rules: `config.edition`, and whether `streams` is given.
pub record RulesDocument : Type 0 where
  pub edition : ℤ
  pub has_streams : Bool

unfoldable pub check_document : RulesDocument → Result (Unit {0})
check_document document =
    if document.edition =ℤ= pos 3
    then if document.has_streams
      then ok tt
      else err (errorf "PowerSync sync_rules.yaml requires streams")
    else err (errorf "PowerSync sync_rules.yaml requires config.edition: 3")

-- `yaml.Unmarshal`, and the tests of the document.
unfoldable pub check_rules : (Bytes → Result RulesDocument) → Bytes → Result Bytes
unfolding check_document
check_rules unmarshal rules = elim (unmarshal rules) [
  | err e ↦ err (wrap "parsing PowerSync sync_rules.yaml" e)
  | ok document ↦ elim (check_document document) [ err e ↦ err e | ok _ ↦ ok rules ]
]

unfoldable pub rules_of : String → ConfigMap → Result Bytes
rules_of ref config_map =
    let content = or_empty (lookup "sync_rules.yaml" config_map.data_) in
    if bytes_eq content []
    then err (
        errorf
          ("PowerSync sync rules ConfigMap " <> ref <> " must contain non-empty sync_rules.yaml"))
    else ok content

unfoldable pub cdc_script_hash : Library → ConfigMap → Bytes
cdc_script_hash lib config_map = hex (lib.sha256 (or_empty (lookup "setup.sh" config_map.data_)))

abbrev pub pending_text : String
pending_text = "Waiting for the PowerSync publication"

module _ {W : Type 0} (machinery : Machinery) (client : Client W) where
  module _ (unmarshal : Bytes → Result RulesDocument) where
    -- The rules in the project, or in the ConfigMap that it refers to.
    unfoldable pub load_and_validate_power_sync_rules :
        SupabaseProject → SyncRulesSpec → W → Result Bytes
    unfolding check_rules rules_of
    load_and_validate_power_sync_rules project rules world =
        let ref = rules.config_map_ref in
        if ref == ""
        then check_rules unmarshal rules.inline
        else elim (client.config_maps.get (in_namespace project ref) world) [
          | err e ↦ err (wrap ("getting PowerSync sync rules ConfigMap " <> ref) e)
          | ok config_map ↦ elim (rules_of ref config_map) [
            | err e ↦ err e
            | ok content ↦ check_rules unmarshal content
          ]
        ]

    unfoldable pub reconcile_power_sync_rules_validation : SyncRulesSpec → Effect (State W) Bytes
    unfolding load_and_validate_power_sync_rules
    reconcile_power_sync_rules_validation rules =
        rescue
          (λ state. (load_and_validate_power_sync_rules state.project rules state.world, state))
          (fail_condition machinery client "PowersyncReady" "InvalidSyncRules")

  abbrev pub wait_for_publication : String → Effect (State W) Next
  wait_for_publication = wait_condition machinery client "CDCReady" "PublicationPending"

  unfoldable pub create_publication : Publication → Effect (State W) Next
  create_publication desired = with_project λ project.
      lift (own machinery project desired.meta) >>= λ meta.
      on_world (client.publications.create (record desired { meta = meta }))
      >> wait_for_publication pending_text

  -- Waits until CloudNativePG has applied it.
  unfoldable pub check_applied : Publication → Effect (State W) Next
  check_applied existing =
      if publication_is_applied existing
      then lift (ok proceed)
      else wait_for_publication (if existing.message == "" then pending_text else existing.message)

  unfoldable pub refresh_publication : Publication → Publication → Effect (State W) Next
  unfolding check_applied
  refresh_publication desired existing = with_project λ project.
      let labels = merge_labels existing.meta.labels desired.meta.labels in
      let spec_changed = not (machinery.equal.publication desired.spec existing.spec) in
      lift (own machinery project existing.meta) >>= λ meta.
      if spec_changed
        || (labels.1
            || not (machinery.equal.owners existing.meta.owner_references meta.owner_references))
      then (wrap_error "updating PowerSync publication" (
            on_world (
              client.publications.update (record existing {
                meta = record meta { labels = labels.0 };
                spec = if spec_changed then desired.spec else existing.spec;
              })))
          >> lift (ok requeue))
      else check_applied existing

  unfoldable pub adopt_publication : Publication → Publication → Effect (State W) Next
  unfolding refresh_publication
  adopt_publication desired existing = with_project λ project.
      if label_of label_instance existing.meta.labels == project.name
      then refresh_publication desired existing
      else lift (
          err (
            errorf (
              "refusing to adopt publication " <> existing.meta.name
              <> " without the project instance label")))

  unfoldable pub reconcile_power_sync_publication : Effect (State W) Next
  unfolding adopt_publication create_publication
  reconcile_power_sync_publication = with_project λ project.
      lift (build_power_sync_publication project) >>= λ desired.
      attempt (λ state. client.publications.get (key_of desired.meta) state.world)
        (adopt_publication desired) (if_not_found (create_publication desired))

  unfoldable pub report_cdc : Bool → Effect (State W) Next
  report_cdc false =
      wait_condition machinery client "CDCReady" "JobRunning" "CDC permissions Job is still running"
  report_cdc true =
      set_condition machinery "CDCReady" "True" "CDCPermissionsApplied"
        "CDC permissions applied successfully"
      >> lift (ok proceed)

  unfoldable pub reconcile_cdc_permissions : Library → Builders → Effect (State W) Next
  unfolding report_cdc cdc_script_hash
  reconcile_cdc_permissions lib builders = with_project λ project.
      lift (builders.build_cdc_migrations_config_map project) >>= λ config_map.
      rescue
        (on_world (create_or_update_config_map machinery client.config_maps project config_map))
        (fail_condition machinery client "CDCReady" "ConfigMapFailed")
      >> rescue
          (on_world (
            create_or_check_job machinery client project
              (builders.build_cdc_permissions_job project project.status.secret_names)
              (cdc_script_hash lib config_map)))
          (fail_condition machinery client "CDCReady" "JobFailed")
      >>= report_cdc
