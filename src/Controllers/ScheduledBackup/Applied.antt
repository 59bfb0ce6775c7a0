-- ===== src/Controllers/ScheduledBackup/Applied.antt =====
-- A round of the ScheduledBackup reconciler that reaches the cluster.
use backup_maker_controller.Prelude.{◌≡◌, refl, ap, false, none, List, [], ◌∷◌, ◌++◌, Err, ok, err}
use backup_maker_controller.Kube.{Condition}
use backup_maker_controller.Libs.{Libs}
use backup_maker_controller.Cluster.{Cluster, RetryStops}
use backup_maker_controller.Workspace.{Workspace}
use backup_maker_controller.Api.ScheduledBackup.{ScheduledBackup, has_spec_changed}
use backup_maker_controller.Domain.Aggregate.{
  ScheduledBackupAggregate, scheduled_one, get_scheduled_backup,
}
use backup_maker_controller.Factory.Aggregates.{Created}
use backup_maker_controller.Bmg.State.{Context, Event}
use backup_maker_controller.Bmg.Apply.{apply_objects}
use backup_maker_controller.Controllers.{finished, requeue, World, enter, leave, condition_of}
use backup_maker_controller.Controllers.ScheduledBackup.{
  updated_object, update_object, after_apply, reconcile_aggregate,
}
use backup_maker_controller.Controllers.ScheduledBackup.Status.{
  update_object_saves, has_spec_changed-updated_object,
}

abbrev pub working : Condition
working =
    condition_of "Unknown"
      "Reconciling to template and push target objects to the cluster (Jobs/CronJobs and related things)"

abbrev pub succeeded : Condition
succeeded = condition_of "True" "Successfully templated and applied objects to the cluster"

module _ (L : Libs) (C : Cluster) (W : Workspace) (backup : ScheduledBackup)
    (c : Created ScheduledBackupAggregate) (hydrated : c.error ≡ none) (w : World C W) where
  -- Where a hydrated backup cannot be applied, the reconciler asks to run again in a minute without an
  -- error, and the last event is a warning with the text of the error.
  pub failed_apply_is_retried :
      (e : Err) (s : Context C W)
      → apply_objects L C W (
          enter
            (scheduled_one c.aggregate)
            (update_object L C c.aggregate.scheduled_backup working w))
        ≡ (err e, s)
      → let (r, w') = reconcile_aggregate L C backup c w in
        (r ≡ ok (requeue 60))
        × ((before : List Event) × (w'.events
              ≡ before
                ++ record {
                  object = backup.meta;
                  event_type = "Warning";
                  reason = "ErrorOccurred";
                  message = L.error_text e;
                }
                  ∷ []))
  unfolding reconcile_aggregate after_apply
  failed_apply_is_retried e s failed = rw (hydrated, failed) (refl, (_, refl))

  -- Where a hydrated backup is applied, its status can be fetched and written, and the retry stops
  -- at a success, the reconciler is finished; the state of the cluster is the one that the write
  -- made, and the written object does not count as changed if its specification is the one that
  -- was applied.
  pub applied_spec_is_settled :
      (stops : RetryStops C) (s : Context C W) (res : ScheduledBackup) (d : C.State)
      → apply_objects L C W (
          enter
            (scheduled_one c.aggregate)
            (update_object L C c.aggregate.scheduled_backup working w))
        ≡ (ok tt, s)
      → C.get_scheduled_backup
          (record {
            namespace = (get_scheduled_backup s.backup).meta.namespace;
            name = (get_scheduled_backup s.backup).meta.name;
          })
          s.cluster
        ≡ (res, none)
      → C.update_status_scheduled_backup
          (get_scheduled_backup s.backup).meta.namespace
          (updated_object L (get_scheduled_backup s.backup) succeeded res)
          s.cluster
        ≡ (none, d)
      → res.spec ≡ (get_scheduled_backup s.backup).spec
      → let (r, w') = reconcile_aggregate L C backup c w in
        (r ≡ ok finished)
        × (w'.cluster ≡ d)
        × (has_spec_changed L (updated_object L (get_scheduled_backup s.backup) succeeded res)
            ≡ false)
  unfolding reconcile_aggregate after_apply
  applied_spec_is_settled stops s res d applied got saved same =
      let b = get_scheduled_backup s.backup in
      let settled = has_spec_changed-updated_object L b res succeeded same in
      let stored =
        update_object_saves L C b succeeded s.cluster res d got saved stops (leave s) refl in
      rw (hydrated, applied) (refl, ap (λ (v : World C W). v.cluster) stored, settled)
