-- ===== src/Controllers/Observers/Unowned.antt =====
-- The observer of a ScheduledBackup that refers to nothing.
use backup_maker_controller.Prelude.{◌≡◌, refl, sym, subst, none, [], ok, Res}
use backup_maker_controller.Kube.{Request}
use backup_maker_controller.Libs.{Libs}
use backup_maker_controller.Cluster.{Cluster, RetryStops}
use backup_maker_controller.Api.ChildReference.{ChildrenReferences}
use backup_maker_controller.Integration.{new_all_supported_job_resource_types}
use backup_maker_controller.Domain.Aggregate.{
  ScheduledBackupAggregate, get_references_of_owned_objects,
}
use backup_maker_controller.Api.ScheduledBackup.{ScheduledBackup}
use backup_maker_controller.Controllers.{finished}
use backup_maker_controller.Controllers.Health.{HealthReport, create_owned_references_health_report}
use backup_maker_controller.Controllers.Health.Report.{nothing_seen, report_on_nothing}
use backup_maker_controller.Controllers.Observers.{
  reported_backup, save_backup, backup_attempt, settle, report_on, observe_backup,
}

module _ (L : Libs) (C : Cluster) where
  pub observe_backup-unowned :
      (stops : RetryStops C) (req : Request) (b : ScheduledBackupAggregate) (now : C.State)
      → b.scheduled_backup.status.owned_references ≡ []
      → (res : ScheduledBackup)
      → C.get_scheduled_backup
          (record {
            namespace = b.scheduled_backup.meta.namespace;
            name = b.scheduled_backup.meta.name;
          })
          now
        ≡ (res, none)
      → let written = reported_backup b.scheduled_backup nothing_seen res in
        (d : C.State)
        → C.update_status_scheduled_backup b.scheduled_backup.meta.namespace written now ≡ (none, d)
        → observe_backup L C req b now ≡ (ok finished, d)
  unfolding observe_backup report_on settle backup_attempt save_backup
      get_references_of_owned_objects
  observe_backup-unowned stops req b now fresh res got d saved =
      let supported =
        new_all_supported_job_resource_types L (λ ns selector. C.list_jobs ns selector now) in
      let saves : backup_attempt C b.scheduled_backup nothing_seen now ≡ (none, d) =
        rw (got, saved) refl in
      let ends : settle C (backup_attempt C b.scheduled_backup) (ok nothing_seen) now
          ≡ (ok finished, d) =
        rw (stops.retry_success _ now d saves) refl in
      subst
        (λ (refs : ChildrenReferences).
          settle C (backup_attempt C b.scheduled_backup)
            (create_owned_references_health_report L supported req.namespace refs) now
          ≡ (ok finished, d))
        (sym fresh)
        (subst
          (λ (r : Res HealthReport).
            settle C (backup_attempt C b.scheduled_backup) r now ≡ (ok finished, d))
          (sym (report_on_nothing L supported req.namespace)) ends)
