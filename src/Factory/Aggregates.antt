-- ===== src/Factory/Aggregates.antt =====
-- aggregate_factory.go: the steps of the hydration after the keys, and the two constructors of aggregates.
pub mod Results
pub mod Frame
pub mod Identity
use backup_maker_controller.Prelude.{
  String, ◌==◌, Bool, true, false, not, ◌&&◌, Option, none, some, List, [], ◌∷◌, Dict, lookup, read,
  assign, Err, Fallible, gives, fails, Res, ok, err, panic, Go, pure, bind_res, ◌>>=◌,
  if◌then◌else◌,
}
use backup_maker_controller.Kube.{Secret, Request, Result}
use backup_maker_controller.Libs.{Libs}
use backup_maker_controller.Cluster.{Cluster}
use backup_maker_controller.Api.ScheduledBackup.{ScheduledBackup}
use backup_maker_controller.Api.RequestedBackupAction.{RequestedBackupAction}
use backup_maker_controller.Api.Template.{
  ClusterBackupProcedureTemplate, Template, cluster, internal, internal_template_kind,
}
use backup_maker_controller.Gpg.{Crypto, or_made}
use backup_maker_controller.Domain.Aggregate.{
  ScheduledBackupAggregate, RequestedBackupActionAggregate, new_requested_backup_action_aggregate,
}
use backup_maker_controller.Factory.Hydrate.{
  Hydrated, Step, error_action_requeue, fetch_secret, fetch_template, fetch_scheduled_backup,
  fetch_requested_backup_action, hydrate_gpg_secret,
}

-- The next step runs if the one before it returned no error.
abbrev pub and_then :
    {S : Type 0} → Hydrated × S → (ScheduledBackupAggregate → S → Hydrated × S) → Hydrated × S
and_then ((a, none), s) f = f a s
and_then ((a, some e), s) f = ((a, some e), s)

with_template : ScheduledBackupAggregate → ClusterBackupProcedureTemplate × Option Err → Hydrated
with_template a (tpl, none) = (record a { template = some (cluster tpl) }, none)
with_template a (tpl, some e) =
    (a, some (Err.wrap e "cannot fetch ClusterBackupProcedureTemplate type object"))

with_token : ScheduledBackupAggregate → Secret × Option Err → Hydrated
with_token a (secret, none) = (record a { token_secret = some secret }, none)
with_token a (secret, some e) = (
  a,
  some (
      Err.wrap e
        "cannot fetch access token Secret (access token to access Backup Repository server)"),
)

with_vars_secret : ScheduledBackupAggregate → Secret × Option Err → Hydrated
with_vars_secret a (secret, none) = (record a { vars_list_secret = some secret }, none)
with_vars_secret a (secret, some e) = (
  a,
  some (
      Err.wrap e
        "warning - cannot find Secret containing vars - but secret name was referenced, will try again"),
)

-- `Repository.token`, from the secret of the token if it has a text there.
token_value : String → Option (Dict String) → Option String
token_value key none = none
token_value key (some d) = lookup key d

add_token_value : Option String → Dict String → Dict String
add_token_value none vars = vars
add_token_value (some val) vars = if val == "" then vars else assign "Repository.token" val vars

add_token : Option Secret → String → Dict String → Dict String
unfolding token_value add_token_value
add_token none key vars = vars
add_token (some secret) key vars = add_token_value (token_value key secret.contents) vars

-- `HelmValues.gpgKeyContent`, by the operation; the index is the field of the spec as it is written.
unfoldable pub add_gpg_key : String → Secret → ScheduledBackupAggregate → Dict String → Dict String
unfolding or_made read
add_gpg_key operation secret a vars =
    let spec = a.scheduled_backup.spec in
    let op = if operation == "" then spec.operation else operation in
    let index =
      if op == "backup"
      then spec.gpg_key_secret_ref.public_key
      else spec.gpg_key_secret_ref.private_key in
    assign "HelmValues.gpgKeyContent" (read index (or_made secret.contents)) vars

-- The aggregate, the action for the controller, and the error.
abbrev pub Created : Type 0 → Type 0
Created A = record { aggregate : A; controller_action : Option Err; error : Option Err }

completed : String → ScheduledBackupAggregate → Secret → Created ScheduledBackupAggregate
unfolding add_token add_gpg_key
completed operation a secret =
    let key = a.scheduled_backup.spec.token_secret_ref.token_key in
    let vars = add_token a.token_secret key a.additional_vars_list in
    record {
      aggregate = record a { additional_vars_list = add_gpg_key operation secret a vars };
      controller_action = none;
      error = none;
    }

-- What follows the four steps. `aggregate.GPGSecret.Data` of a nil secret panics.
finish : String → Hydrated → Res (Created ScheduledBackupAggregate)
unfolding completed
finish operation (a, some e) =
    ok (record { aggregate = a; controller_action = some error_action_requeue; error = some e })
finish operation (a, none) = elim a.gpg_secret [
  | none ↦ panic
  | some secret ↦ ok (completed operation a secret)
]

abbrev pub fresh_aggregate : ScheduledBackup → ScheduledBackupAggregate
fresh_aggregate backup = record {
  scheduled_backup = backup;
  template = none;
  gpg_secret = none;
  token_secret = none;
  vars_list_secret = none;
  additional_vars_list = [];
}

-- What is made of the action and the aggregate of its backup. The spec is changed only without an
-- error: no cron job, and the operation of the action.
requested :
    Libs
    → RequestedBackupAction
    → Created ScheduledBackupAggregate
    → Created RequestedBackupActionAggregate
requested L action c =
    let a = new_requested_backup_action_aggregate L action c.aggregate in
    let b = a.scheduled.scheduled_backup in
    elim c.error [
      | some e ↦ record {
        aggregate = a;
        controller_action = some error_action_requeue;
        error = some e;
      }
      | none ↦ record {
        aggregate = record a {
          scheduled = record a.scheduled {
            scheduled_backup = record b {
              spec = record b.spec {
                cron_job = record b.spec.cron_job { enabled = false };
                operation = action.spec.action;
              };
            };
          };
        };
        controller_action = none;
        error = none;
      }
    ]

module _ (L : Libs) (K : Crypto) (C : Cluster) where
  unfoldable pub hydrate_template : ScheduledBackupAggregate → C.State → Hydrated × C.State
  unfolding with_template
  hydrate_template a s =
      let ref = a.scheduled_backup.spec.template_ref in
      if ref.kind == internal_template_kind
      then ((record a { template = some (internal (record { name = ref.name })) }, none), s)
      else (with_template a (fetch_template L K C a.scheduled_backup s), s)

  unfoldable pub hydrate_access_token : ScheduledBackupAggregate → C.State → Hydrated × C.State
  unfolding with_token
  hydrate_access_token a s =
      let b = a.scheduled_backup in
      (with_token a (fetch_secret L K C b.spec.token_secret_ref.secret_name b.meta.namespace s), s)

  unfoldable pub hydrate_vars_secret : ScheduledBackupAggregate → C.State → Hydrated × C.State
  unfolding with_vars_secret
  hydrate_vars_secret a s =
      let b = a.scheduled_backup in
      let name = b.spec.vars_secret_ref.secret_name in
      if name == ""
      then ((a, none), s)
      else (with_vars_secret a (fetch_secret L K C name b.meta.namespace s), s)

  -- The four steps in their order.
  unfoldable pub hydrate_all : ScheduledBackup → C.State → Hydrated × C.State
  hydrate_all backup s =
      and_then
        (and_then (and_then (hydrate_gpg_secret L K C (fresh_aggregate backup) s) hydrate_template)
          hydrate_access_token)
        hydrate_vars_secret

  unfoldable pub create_scheduled_backup_aggregate :
      ScheduledBackup → String → Go C.State (Created ScheduledBackupAggregate)
  unfolding finish
  create_scheduled_backup_aggregate backup operation s =
      let (h, s') = hydrate_all backup s in (finish operation h, s')

  unfoldable pub create_requested_backup_action_aggregate :
      RequestedBackupAction → ScheduledBackup → Go C.State (Created RequestedBackupActionAggregate)
  unfolding requested
  create_requested_backup_action_aggregate action backup = do
    c ← create_scheduled_backup_aggregate backup action.spec.action
    pure (requested L action c)
