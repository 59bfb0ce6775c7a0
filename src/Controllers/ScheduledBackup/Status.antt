-- ===== src/Controllers/ScheduledBackup/Status.antt =====
-- What the status of a ScheduledBackup holds after an update.
use backup_maker_controller.Prelude.{◌==◌, ◌≡◌, refl, arith, eq_iff, not, ◌&&◌, none}
use backup_maker_controller.Kube.{Condition}
use backup_maker_controller.Libs.{Libs}
use backup_maker_controller.Cluster.{Cluster, RetryStops}
use backup_maker_controller.Workspace.{Workspace}
use backup_maker_controller.Api.ScheduledBackup.{ScheduledBackup, calculate_hash, has_spec_changed}
use backup_maker_controller.Controllers.{World, completed_condition}
use backup_maker_controller.Controllers.ScheduledBackup.{
  updated_object, update_with, update_attempt, update_object, note_update_error,
}

module _ (L : Libs) (backup res : ScheduledBackup) (condition : Condition) where
  -- Where the fresh object has the specification that was worked on, the object that is written no longer
  -- counts as changed if the condition is `True`, and counts as changed exactly if it did before if not.
  pub has_spec_changed-updated_object :
      res.spec ≡ backup.spec
      → has_spec_changed L (updated_object L backup condition res)
        ≡ (not (condition.status == "True") && has_spec_changed L res)
  unfolding has_spec_changed updated_object completed_condition
  has_spec_changed-updated_object h =
      ground (arith, h, eq_iff (calculate_hash L backup.spec) (calculate_hash L backup.spec))

  -- The references to applied objects that the aggregate has gathered are not written.
  pub updated_object-owned :
      (updated_object L backup condition res).status.owned_references ≡ res.status.owned_references
  unfolding updated_object completed_condition
  updated_object-owned = refl

module _ (L : Libs) (C : Cluster) (backup : ScheduledBackup) (condition : Condition) (s : C.State)
    (res : ScheduledBackup) (c : C.State)
    (got : C.get_scheduled_backup
        (record { namespace = backup.meta.namespace; name = backup.meta.name })
        s
      ≡ (res, none))
    (saved : C.update_status_scheduled_backup backup.meta.namespace
        (updated_object L backup condition res)
        s
      ≡ (none, c)) where
  update_attempt_saves : update_attempt L C backup condition s ≡ (none, c)
  unfolding update_attempt update_with
  update_attempt_saves = rw got saved

  -- An update whose first attempt succeeds leaves the state of the cluster that the attempt made, and
  -- changes nothing else.
  pub update_object_saves :
      {W : Workspace} (stops : RetryStops C) (w : World C W)
      → w.cluster ≡ s
      → update_object L C backup condition w ≡ record w { cluster = c }
  unfolding update_object note_update_error
  update_object_saves stops w at = ground (
    arith,
    at,
    stops.retry_success (update_attempt L C backup condition) s c update_attempt_saves,
  )
