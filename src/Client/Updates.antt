-- ===== src/Client/Updates.antt =====
-- The calls of the controllers on the typed clients, as requests to the server.
use backup_maker_controller.Prelude.{◌≡◌, refl, Option, none, some, [], ◌∷◌, Err}
use backup_maker_controller.Kube.{Condition}
use backup_maker_controller.Libs.{Libs}
use backup_maker_controller.Cluster.{Cluster}
use backup_maker_controller.Api.ScheduledBackup.{ScheduledBackup}
use backup_maker_controller.Api.RequestedBackupAction.{RequestedBackupAction}
use backup_maker_controller.Client.Rest.{RestTypes, Rest, RestRequest, put}
use backup_maker_controller.Client.Typed.{
  typed_client, scheduled_backups, requested_backup_actions, update_status_request,
}
use backup_maker_controller.Controllers.Health.{HealthReport}
use backup_maker_controller.Controllers.Observers.{
  save_action, save_backup, action_attempt, backup_attempt,
}
use backup_maker_controller.Controllers.ScheduledBackup.{
  update_with as update_backup_with, update_attempt as update_backup_attempt,
}
use backup_maker_controller.Controllers.RequestedBackupAction.{update_with, update_attempt}

-- `metav1.GetOptions{}` and `metav1.UpdateOptions{}`, and the server that the two clients talk to.
pub record Connection (C : Cluster) : Type 1 where
  pub T : RestTypes
  pub get_options : T.GetOptions
  pub update_options : T.UpdateOptions
  pub actions : Rest T C.State RequestedBackupAction
  pub backups : Rest T C.State ScheduledBackup

-- The error of a call whose object is not read.
abbrev pub error_only : {O S : Type 0} → (O × Option Err) × S → Option Err × S
error_only ((o, e), s) = (e, s)

-- A cluster whose typed client is the generated one.
abbrev pub connected : (C : Cluster) → Connection C → Cluster
connected C N = record C {
  get_requested_backup_action =
      λ req s. (requested_backup_actions N.actions req.namespace).get req.name N.get_options s;
  update_status_requested_backup_action = λ ns action s.
      error_only ((requested_backup_actions N.actions ns).update_status action N.update_options s);
  get_scheduled_backup =
      λ req s. (scheduled_backups N.backups req.namespace).get req.name N.get_options s;
  update_status_scheduled_backup = λ ns backup s.
      error_only ((scheduled_backups N.backups ns).update_status backup N.update_options s);
}

module _ (L : Libs) (C : Cluster) (N : Connection C) (P : C.State → Type 0)
    (actions : (r : RestRequest N.T RequestedBackupAction) (o : RequestedBackupAction) (s : C.State)
      → r.verb ≡ put
      → r.subresources ≡ "status" ∷ []
      → P s
      → P (N.actions.write r o s).1)
    (backups : (r : RestRequest N.T ScheduledBackup) (o : ScheduledBackup) (s : C.State)
      → r.verb ≡ put
      → r.subresources ≡ "status" ∷ []
      → P s
      → P (N.backups.write r o s).1) where
  update_action-keeps :
      (action : RequestedBackupAction) (condition : Condition)
      (read : RequestedBackupAction × Option Err) (s : C.State)
      → P s
      → P (update_with L (connected C N) action condition read s).1
  unfolding update_with requested_backup_actions typed_client update_status_request
  update_action-keeps action condition (res, some e) s h = h
  update_action-keeps action condition (res, none) s h = actions _ _ s refl refl h

  update_backup-keeps :
      (backup : ScheduledBackup) (condition : Condition) (read : ScheduledBackup × Option Err)
      (s : C.State)
      → P s
      → P (update_backup_with L (connected C N) backup condition read s).1
  unfolding update_backup_with scheduled_backups typed_client update_status_request
  update_backup-keeps backup condition (res, some e) s h = h
  update_backup-keeps backup condition (res, none) s h = backups _ _ s refl refl h

  save_action-keeps :
      (action : RequestedBackupAction) (health : HealthReport)
      (read : RequestedBackupAction × Option Err) (s : C.State)
      → P s
      → P (save_action (connected C N) action health read s).1
  unfolding save_action requested_backup_actions typed_client update_status_request
  save_action-keeps action health (res, some e) s h = h
  save_action-keeps action health (res, none) s h = actions _ _ s refl refl h

  save_backup-keeps :
      (backup : ScheduledBackup) (health : HealthReport) (read : ScheduledBackup × Option Err)
      (s : C.State)
      → P s
      → P (save_backup (connected C N) backup health read s).1
  unfolding save_backup scheduled_backups typed_client update_status_request
  save_backup-keeps backup health (res, some e) s h = h
  save_backup-keeps backup health (res, none) s h = backups _ _ s refl refl h

  -- The controllers write through the generated client to statuses alone: a predicate on the server that
  -- every PUT to a subresource `status` keeps, as that the specifications are what they were, is kept
  -- by each attempt of the two reconcilers and of the two observers to update a status, whatever the
  -- read of the object returns and whatever the server answers.
  pub attempts_keep_all_but_status :
      (action : RequestedBackupAction) (backup : ScheduledBackup) (condition : Condition)
      (health : HealthReport) (s : C.State)
      → P s
      → P (update_attempt L (connected C N) action condition s).1
        × P (update_backup_attempt L (connected C N) backup condition s).1
        × P (action_attempt (connected C N) action health s).1
        × P (backup_attempt (connected C N) backup health s).1
  unfolding update_attempt update_backup_attempt action_attempt backup_attempt
  attempts_keep_all_but_status action backup condition health s h = (
    update_action-keeps action condition _ s h,
    update_backup-keeps backup condition _ s h,
    save_action-keeps action health _ s h,
    save_backup-keeps backup health _ s h,
  )
