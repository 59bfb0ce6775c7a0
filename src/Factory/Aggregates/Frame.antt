-- ===== src/Factory/Aggregates/Frame.antt =====
-- The construction of an aggregate changes nothing in the cluster but Secrets, and keeps the status of the
-- action.
use backup_maker_controller.Prelude.{
  String, ◌≡◌, refl, Option, none, some, Err, Res, ok, err, panic, pure, bind_res,
}
use backup_maker_controller.Libs.{Libs}
use backup_maker_controller.Cluster.{Cluster}
use backup_maker_controller.Gpg.{Crypto}
use backup_maker_controller.Api.ScheduledBackup.{ScheduledBackup}
use backup_maker_controller.Api.RequestedBackupAction.{
  RequestedBackupAction, RequestedBackupActionStatus,
}
use backup_maker_controller.Domain.Aggregate.{
  ScheduledBackupAggregate, RequestedBackupActionAggregate, new_requested_backup_action_aggregate,
}
use backup_maker_controller.Factory.Hydrate.{Hydrated}
use backup_maker_controller.Factory.Hydrate.Frame.{
  IsSecretFree, Kept, kept, if-Kept, hydrate_gpg_secret-Kept,
}
use backup_maker_controller.Factory.Aggregates.{
  Created, and_then, fresh_aggregate, requested, hydrate_template, hydrate_access_token,
  hydrate_vars_secret, hydrate_all, create_scheduled_backup_aggregate,
  create_requested_backup_action_aggregate,
}

-- What was created has the status of the action; an error beside it does not matter.
abbrev pub HasStatus :
    RequestedBackupActionStatus → Res (Created RequestedBackupActionAggregate) → Type 0
HasStatus status (ok c) = c.aggregate.action.status ≡ status
HasStatus status (err e) = Unit
HasStatus status panic = Unit

and_then-Kept :
    {S : Type 0} (P : S → Type 0) (r : Hydrated × S)
    (f : ScheduledBackupAggregate → S → Hydrated × S)
    → Kept P r
    → ((a : ScheduledBackupAggregate) (s : S) → P s → Kept P (f a s))
    → Kept P (and_then r f)
unfolding Kept
and_then-Kept P ((a, none), s) f h g = g a s h
and_then-Kept P ((a, some e), s) f h g = h

module _ (L : Libs) (K : Crypto) (C : Cluster) (P : C.State → Type 0) (F : IsSecretFree C P) where
  hydrate_template-Kept :
      (a : ScheduledBackupAggregate) (s : C.State) → P s → Kept P (hydrate_template L K C a s)
  unfolding hydrate_template
  hydrate_template-Kept a s h = search (if-Kept, kept)

  hydrate_access_token-Kept :
      (a : ScheduledBackupAggregate) (s : C.State) → P s → Kept P (hydrate_access_token L K C a s)
  unfolding hydrate_access_token
  hydrate_access_token-Kept a s h = kept P _ s h

  hydrate_vars_secret-Kept :
      (a : ScheduledBackupAggregate) (s : C.State) → P s → Kept P (hydrate_vars_secret L K C a s)
  unfolding hydrate_vars_secret
  hydrate_vars_secret-Kept a s h = search (if-Kept, kept)

  hydrate_all-Kept :
      (backup : ScheduledBackup) (s : C.State) → P s → Kept P (hydrate_all L K C backup s)
  unfolding hydrate_all
  hydrate_all-Kept backup s h =
      and_then-Kept P _ _
        (and_then-Kept P _ _
          (and_then-Kept P _ _ (hydrate_gpg_secret-Kept L K C P F (fresh_aggregate backup) s h)
            hydrate_template-Kept)
          hydrate_access_token-Kept)
        hydrate_vars_secret-Kept

  pub create_scheduled_backup_aggregate-Kept :
      (backup : ScheduledBackup) (operation : String) (s : C.State)
      → P s
      → Kept P (create_scheduled_backup_aggregate L K C backup operation s)
  unfolding create_scheduled_backup_aggregate Kept
  create_scheduled_backup_aggregate-Kept backup operation s h = hydrate_all-Kept backup s h

module _ (L : Libs) (action : RequestedBackupAction) where
  requested-status :
      (c : Created ScheduledBackupAggregate) (e : Option Err)
      → c.error ≡ e
      → (requested L action c).aggregate.action.status ≡ action.status
  unfolding requested new_requested_backup_action_aggregate
  requested-status c none h = rw h refl
  requested-status c (some e) h = rw h refl

  module _ (K : Crypto) (C : Cluster) (P : C.State → Type 0) (F : IsSecretFree C P) where
    requested-Kept :
        (r : Res (Created ScheduledBackupAggregate) × C.State)
        → Kept P r
        → let made = bind_res r (λ c. pure (requested L action c)) in
          Kept P made × HasStatus action.status made.0
    unfolding Kept
    requested-Kept (ok c, s) h = (h, requested-status c c.error refl)
    requested-Kept (err e, s) h = (h, tt)
    requested-Kept (panic, s) h = (h, tt)

    pub create_requested_backup_action_aggregate-Kept :
        (backup : ScheduledBackup) (s : C.State)
        → P s
        → let made = create_requested_backup_action_aggregate L K C action backup s in
          Kept P made × HasStatus action.status made.0
    unfolding create_requested_backup_action_aggregate
    create_requested_backup_action_aggregate-Kept backup s h =
        requested-Kept (create_scheduled_backup_aggregate L K C backup action.spec.action s)
          (create_scheduled_backup_aggregate-Kept L K C P F backup action.spec.action s h)
