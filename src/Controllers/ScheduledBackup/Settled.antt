-- ===== src/Controllers/ScheduledBackup/Settled.antt =====
-- The round after the one that applied a backup.
use backup_maker_controller.Prelude.{ℕ, ◌≡◌, none, ok}
use backup_maker_controller.Kube.{Request}
use backup_maker_controller.Libs.{Libs}
use backup_maker_controller.Cluster.{Cluster, RetryStops}
use backup_maker_controller.Workspace.{Workspace}
use backup_maker_controller.Gpg.{Crypto}
use backup_maker_controller.Api.ScheduledBackup.{ScheduledBackup}
use backup_maker_controller.Domain.Aggregate.{
  ScheduledBackupAggregate, scheduled_one, get_scheduled_backup,
}
use backup_maker_controller.Factory.Hydrate.{fetch_scheduled_backup}
use backup_maker_controller.Factory.Aggregates.{Created}
use backup_maker_controller.Bmg.State.{Context}
use backup_maker_controller.Bmg.Apply.{apply_objects}
use backup_maker_controller.Controllers.{finished, World, enter}
use backup_maker_controller.Controllers.ScheduledBackup.{
  updated_object, update_object, reconcile_aggregate, reconcile_body,
}
use backup_maker_controller.Controllers.ScheduledBackup.Applied.{
  working, succeeded, applied_spec_is_settled,
}
use backup_maker_controller.Controllers.ScheduledBackup.Outcomes.{reconcile_body_idle}

module _ (L : Libs) (K : Crypto) (C : Cluster) (W : Workspace) (backup : ScheduledBackup)
    (c : Created ScheduledBackupAggregate) (hydrated : c.error ≡ none) (w : World C W) where
  -- Once a backup is applied and the written status can be read back, the rounds come to rest: where
  -- the backup is hydrated and applied, its status can be fetched and written, the retry stops at a
  -- success, the fetched object has the specification that was applied, so that nobody edited it
  -- meanwhile, and the cache then answers with the written object, the next round at any time is finished
  -- and changes nothing at all, and so does every one after it.
  pub applied_backup_rests :
      (stops : RetryStops C) (s : Context C W) (res : ScheduledBackup) (d : C.State) (now : ℕ)
      (req : Request)
      → apply_objects L C W (
          enter
            (scheduled_one c.aggregate)
            (update_object L C c.aggregate.scheduled_backup working w))
        ≡ (ok tt, s)
      → C.get_scheduled_backup
          (record {
            namespace = (get_scheduled_backup s.backup).meta.namespace;
            name = (get_scheduled_backup s.backup).meta.name;
          })
          s.cluster
        ≡ (res, none)
      → C.update_status_scheduled_backup
          (get_scheduled_backup s.backup).meta.namespace
          (updated_object L (get_scheduled_backup s.backup) succeeded res)
          s.cluster
        ≡ (none, d)
      → res.spec ≡ (get_scheduled_backup s.backup).spec
      → fetch_scheduled_backup L K C req d
        ≡ (updated_object L (get_scheduled_backup s.backup) succeeded res, none)
      → let w' = (reconcile_aggregate L C backup c w).1 in
        reconcile_body L K C now req w' ≡ (ok finished, w')
  applied_backup_rests stops s res d now req applied got saved same visible =
      let (_, at, settled) =
        applied_spec_is_settled L C W backup c hydrated w stops s res d applied got saved same in
      let w' = (reconcile_aggregate L C backup c w).1 in
      reconcile_body_idle L K C now req w'
        (updated_object L (get_scheduled_backup s.backup) succeeded res) (rw at visible) settled
