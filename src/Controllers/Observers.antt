-- ===== src/Controllers/Observers.antt =====
-- requestedbackupaction_jobs_observer.go and scheduledbackup_jobs_observer.go: they collect the health of
-- the owned jobs, and store it when no job runs any more.
pub mod Stored
pub mod Lifecycle
pub mod Backups
pub mod Unowned
use backup_maker_controller.Prelude.{
  String, Bool, true, false, Option, none, some, List, any, Err, wrap, Res, ok, err, panic, Go,
  ◌>>=◌, if◌then◌else◌,
}
use backup_maker_controller.Kube.{Request}
use backup_maker_controller.Libs.{Libs}
use backup_maker_controller.Cluster.{Cluster}
use backup_maker_controller.Gpg.{Crypto}
use backup_maker_controller.Locking.{Locker}
use backup_maker_controller.Api.ChildReference.{ChildrenReferences, JobHealthStatus}
use backup_maker_controller.Api.ScheduledBackup.{ScheduledBackup}
use backup_maker_controller.Api.RequestedBackupAction.{RequestedBackupAction}
use backup_maker_controller.Domain.Aggregate.{
  ScheduledBackupAggregate, RequestedBackupActionAggregate, scheduled_one, requested_one,
  get_references_of_owned_objects,
}
use backup_maker_controller.Integration.{new_all_supported_job_resource_types}
use backup_maker_controller.Factory.Fetching.{
  Fetched, fetched, not_fetched, fetch_sb_aggregate, fetch_rba_aggregate,
}
use backup_maker_controller.Controllers.{Reply, finished, requeue, failed_with, under_lock}
use backup_maker_controller.Controllers.Health.{HealthReport, create_owned_references_health_report}

-- What `updateStatus` writes: the status of the aggregate, with the report and the verdict.
unfoldable pub reported_backup : ScheduledBackup → HealthReport → ScheduledBackup → ScheduledBackup
reported_backup backup health res = record res {
  status = record backup.status {
    children_resources_health = health.report;
    healthy = health.healthy;
  };
}

unfoldable pub reported_action :
    RequestedBackupAction → HealthReport → RequestedBackupAction → RequestedBackupAction
reported_action action health res = record res {
  status = record action.status {
    children_resources_health = health.report;
    healthy = health.healthy;
  };
}

module _ (C : Cluster) where
  unfoldable pub save_backup :
      ScheduledBackup → HealthReport → ScheduledBackup × Option Err → C.State → Option Err × C.State
  save_backup backup health (res, some e) s = (some e, s)
  save_backup backup health (res, none) s =
      C.update_status_scheduled_backup backup.meta.namespace (reported_backup backup health res) s

  unfoldable pub backup_attempt : ScheduledBackup → HealthReport → C.State → Option Err × C.State
  unfolding save_backup
  backup_attempt backup health s =
      save_backup backup health
        (C.get_scheduled_backup
          (record { namespace = backup.meta.namespace; name = backup.meta.name }) s)
        s

  unfoldable pub save_action :
      RequestedBackupAction
      → HealthReport
      → RequestedBackupAction × Option Err
      → C.State
      → Option Err × C.State
  save_action action health (res, some e) s = (some e, s)
  save_action action health (res, none) s =
      C.update_status_requested_backup_action action.meta.namespace
        (reported_action action health res) s

  unfoldable pub action_attempt :
      RequestedBackupAction → HealthReport → C.State → Option Err × C.State
  unfolding save_action
  action_attempt action health s =
      save_action action health
        (C.get_requested_backup_action
          (record { namespace = action.meta.namespace; name = action.meta.name }) s)
        s

  -- What both observers do with the report. Its error is assigned to `err` and not read, and so is that
  -- of the retry.
  unfoldable pub settle :
      (HealthReport → C.State → Option Err × C.State) → Res HealthReport → Go C.State Reply
  settle attempt panic s = (panic, s)
  settle attempt (err e) s = (err e, s)
  settle attempt (ok health) s =
      if any (λ (status : JobHealthStatus). status.running) health.report
      then (ok (requeue 10), s)
      else (ok finished, (C.retry_on_conflict (attempt health) s).1)

module _ (L : Libs) (C : Cluster) where
  unfoldable pub report_on : ChildrenReferences → String → C.State → Res HealthReport
  report_on refs namespace s =
      create_owned_references_health_report L
        (new_all_supported_job_resource_types L (λ ns selector. C.list_jobs ns selector s))
        namespace refs

  unfoldable pub observe_backup : Request → ScheduledBackupAggregate → Go C.State Reply
  unfolding report_on
  observe_backup req a s =
      settle C (backup_attempt C a.scheduled_backup)
        (report_on (get_references_of_owned_objects (scheduled_one a)) req.namespace s) s

  unfoldable pub observe_action : Request → RequestedBackupActionAggregate → Go C.State Reply
  unfolding report_on
  observe_action req a s =
      settle C (action_attempt C a.action)
        (report_on (get_references_of_owned_objects (requested_one a)) req.namespace s) s

  -- The error of a fetch becomes the error of the reply.
  observe_fetched_backup : Request → Res ScheduledBackupAggregate → Go C.State Reply
  unfolding observe_backup
  observe_fetched_backup req (ok a) s = observe_backup req a s
  observe_fetched_backup req (err e) s =
      (ok (failed_with (wrap e "cannot fetch ScheduledBackup from cache")), s)
  observe_fetched_backup req panic s = (panic, s)

  observe_fetched_action : Request → Fetched → Go C.State Reply
  unfolding observe_action
  observe_fetched_action req (fetched a) s = observe_action req a s
  observe_fetched_action req (not_fetched result e) s =
      (ok (failed_with (wrap e "cannot fetch RequestedBackupAction from cache")), s)

module _ (L : Libs) (K : Crypto) (C : Cluster) where
  -- What the two observers do under the lock.
  unfoldable pub scheduled_backup_body : Request → Go C.State Reply
  unfolding observe_fetched_backup
  scheduled_backup_body req s =
      let (r, s') = fetch_sb_aggregate L K C req s in observe_fetched_backup L C req r s'

  unfoldable pub requested_backup_action_body : Request → Go C.State Reply
  unfolding observe_fetched_action
  requested_backup_action_body req =
      fetch_rba_aggregate L K C req >>= observe_fetched_action L C req

  unfoldable pub observe_scheduled_backup : (Lk : Locker) → Request → Go (C.State × Lk.State) Reply
  observe_scheduled_backup Lk req = under_lock L Lk req (scheduled_backup_body req)

  unfoldable pub observe_requested_backup_action :
      (Lk : Locker) → Request → Go (C.State × Lk.State) Reply
  observe_requested_backup_action Lk req = under_lock L Lk req (requested_backup_action_body req)
