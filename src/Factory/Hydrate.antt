-- ===== src/Factory/Hydrate.antt =====
-- aggregate_factory.go, with fetching.go's reads of the cache. Each step returns the aggregate as far as
-- it was filled, beside the error, as the Go code leaves it behind its pointer.
pub mod Keys
pub mod Frame
use backup_maker_controller.Prelude.{
  String, ◌==◌, ◌<>◌, Bool, true, false, not, ◌&&◌, Option, none, some, List, [], ◌∷◌, Dict, lookup,
  read, assign, Err, Fallible, gives, fails, Res, ok, err, panic, Go, pure, ◌>>=◌, if◌then◌else◌,
}
use backup_maker_controller.Kube.{Secret, Request, OwnerReference, ObjectMeta, empty_secret}
use backup_maker_controller.Libs.{Libs}
use backup_maker_controller.Cluster.{Cluster}
use backup_maker_controller.Api.Specs.{GpgKeySecretSpec}
use backup_maker_controller.Api.ScheduledBackup.{ScheduledBackup, empty_scheduled_backup}
use backup_maker_controller.Api.RequestedBackupAction.{RequestedBackupAction}
use backup_maker_controller.Api.Template.{ClusterBackupProcedureTemplate, empty_template}
use backup_maker_controller.Gpg.{
  Crypto, should_update, update_gpg_secret_with_recreated_gpg_key, create_new_gpg_secret, or_made,
}
use backup_maker_controller.Domain.Aggregate.{
  ScheduledBackupAggregate, RequestedBackupActionAggregate, new_requested_backup_action_aggregate,
}

abbrev pub error_action_requeue : Err
error_action_requeue = Err.new "REQUEUE"

-- What a hydrating step returns: the aggregate and the error.
abbrev pub Hydrated : Type 0
Hydrated = ScheduledBackupAggregate × Option Err

module _ (L : Libs) (K : Crypto) (C : Cluster) where
  abbrev pub Step : Type 0
  Step = ScheduledBackupAggregate → C.State → Hydrated × C.State

  unfoldable pub fetch_scheduled_backup : Request → C.State → ScheduledBackup × Option Err
  fetch_scheduled_backup req s = C.cache_get_scheduled_backup req empty_scheduled_backup s

  unfoldable pub fetch_requested_backup_action :
      Request → C.State → RequestedBackupAction × Option Err
  fetch_requested_backup_action req s = C.get_requested_backup_action req s

  unfoldable pub fetch_template :
      ScheduledBackup → C.State → ClusterBackupProcedureTemplate × Option Err
  fetch_template backup s = C.cache_get_template backup.spec.template_ref.name empty_template s

  unfoldable pub fetch_secret : String → String → C.State → Secret × Option Err
  fetch_secret name namespace s =
      C.cache_get_secret (record { namespace = namespace; name = name }) empty_secret s

  abbrev gpg_spec : ScheduledBackupAggregate → GpgKeySecretSpec
  gpg_spec a = a.scheduled_backup.spec.gpg_key_secret_ref

  -- `a.GPGSecret = secret; return nil`
  set_gpg_secret : ScheduledBackupAggregate → Secret → Hydrated
  set_gpg_secret a secret = (record a { gpg_secret = some secret }, none)

  created : ScheduledBackupAggregate → (Secret × Option Err) × C.State → Hydrated × C.State
  unfolding set_gpg_secret
  created a ((secret, none), s) = (set_gpg_secret a secret, s)
  created a ((secret, some e), s) =
      ((a, some (Err.wrap e "cannot apply a Secret to Kubernetes")), s)

  -- The secret does not exist. The error of `CreateNewGPGSecret` is assigned to `gpgErr` and not read.
  gpg_secret_not_found : Err → Step
  unfolding created
  gpg_secret_not_found e a s =
      let (secret, unread) =
        create_new_gpg_secret K (gpg_spec a).secret_name a.scheduled_backup.meta.namespace
          (gpg_spec a).email
          (record {
            api_version = "v1alpha1";
            kind = "ScheduledBackup";
            name = a.scheduled_backup.meta.name;
            uid = a.scheduled_backup.meta.uid;
          }
            ∷ [])
          (gpg_spec a) in
      if not (gpg_spec a).create_if_not_exists
      then ((a, some (Err.wrap e "cannot fetch GPG containing Secret")), s)
      else created a (C.client_create_secret secret s)

  saved : ScheduledBackupAggregate → (Secret × Option Err) × C.State → Hydrated × C.State
  unfolding set_gpg_secret
  saved a ((secret, none), s) = (set_gpg_secret a secret, s)
  saved a ((secret, some e), s) =
      ((a, some (Err.wrap e "cannot append GPG identity to the secret")), s)

  updated : ScheduledBackupAggregate → Secret × Fallible Bool → C.State → Hydrated × C.State
  unfolding saved set_gpg_secret
  updated a (secret, gives true) s = saved a (C.client_update_secret secret s)
  updated a (secret, gives false) s = (set_gpg_secret a secret, s)
  updated a (secret, fails e) s = (
    (
      a,
      some (
          Err.wrap e
            "cannot update existing secret with new identity (existing secret was missing specified keys in .data/.stringData section)"),
    ),
    s,
  )

  refetched : ScheduledBackupAggregate → Secret × Option Err → C.State → Hydrated × C.State
  unfolding updated
  refetched a (secret, none) s =
      updated a
        (update_gpg_secret_with_recreated_gpg_key K secret (gpg_spec a) (gpg_spec a).email false) s
  refetched a (secret, some e) s = (
    (
      a,
      some (
          Err.wrap e (
            "cannot fetch existing secret from API - "
            <> (secret.meta.name <> ("/" <> secret.meta.namespace)))),
    ),
    s,
  )

  -- `createIfNotExists` is set, and the fetch did not answer that the secret is missing.
  update_existing_gpg_secret : ScheduledBackupAggregate → Secret → C.State → Hydrated × C.State
  unfolding refetched set_gpg_secret
  update_existing_gpg_secret a fetched s =
      let (secret, needed) = should_update fetched (gpg_spec a) in
      if needed
      then refetched a
          (C.client_get_secret
            (record { namespace = secret.meta.namespace; name = secret.meta.name }) secret s)
          s
      else (set_gpg_secret a secret, s)

  after_fetch : ScheduledBackupAggregate → Secret × Option Err → C.State → Hydrated × C.State
  unfolding update_existing_gpg_secret set_gpg_secret gpg_secret_not_found
  after_fetch a (secret, none) s =
      if (gpg_spec a).create_if_not_exists
      then update_existing_gpg_secret a secret s
      else (set_gpg_secret a secret, s)
  after_fetch a (secret, some e) s =
      if L.is_not_found e
      then gpg_secret_not_found e a s
      else if (gpg_spec a).create_if_not_exists
      then update_existing_gpg_secret a secret s
      else (set_gpg_secret a secret, s)

  unfoldable pub hydrate_gpg_secret : Step
  unfolding fetch_secret after_fetch
  hydrate_gpg_secret a s =
      after_fetch a (fetch_secret (gpg_spec a).secret_name a.scheduled_backup.meta.namespace s) s
