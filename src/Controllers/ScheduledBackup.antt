-- ===== src/Controllers/ScheduledBackup.antt =====
-- scheduledbackup_controller.go: the main loop for ScheduledBackup objects.
pub mod Status
pub mod Outcomes
pub mod Applied
pub mod Settled
pub mod Unwatched
use backup_maker_controller.Prelude.{
  ℕ, String, ◌==◌, ◌<>◌, Bool, true, false, Option, none, some, Err, new, Res, ok, err, panic, Go,
  pure, ◌>>=◌, ◌>>◌, bind_res, if◌then◌else◌,
}
use backup_maker_controller.Kube.{Request, Result, Condition, ObjectMeta}
use backup_maker_controller.Libs.{Libs}
use backup_maker_controller.Cluster.{Cluster}
use backup_maker_controller.Workspace.{Workspace}
use backup_maker_controller.Gpg.{Crypto}
use backup_maker_controller.Locking.{Locker}
use backup_maker_controller.Api.ScheduledBackup.{ScheduledBackup, calculate_hash, needs_processing}
use backup_maker_controller.Domain.Aggregate.{
  ScheduledBackupAggregate, Renderable, scheduled_one, get_scheduled_backup,
}
use backup_maker_controller.Factory.Hydrate.{fetch_scheduled_backup}
use backup_maker_controller.Factory.Aggregates.{Created, create_scheduled_backup_aggregate}
use backup_maker_controller.Bmg.State.{Context}
use backup_maker_controller.Bmg.Apply.{apply_objects}
use backup_maker_controller.Controllers.{
  Reply, finished, requeue, failed_with, condition_of, completed_condition, World, enter, leave,
  notify, in_cluster, under_lock,
}

-- What `updateObject` writes: `res` is the fresh object, `backup` that of the aggregate.
unfoldable pub updated_object :
    Libs → ScheduledBackup → Condition → ScheduledBackup → ScheduledBackup
unfolding completed_condition calculate_hash
updated_object L backup condition res =
    let c = completed_condition res.meta.generation condition in
    record res {
      status = record res.status {
        last_applied_spec_hash =
            if c.status == "True"
            then calculate_hash L backup.spec
            else res.status.last_applied_spec_hash;
        conditions = L.set_status_condition res.status.conditions c;
      };
    }

-- `controllerAction == factory.ErrorActionRequeue` compares with the one error that is made there.
unfoldable pub is_requeue_action : Option Err → Bool
is_requeue_action none = false
is_requeue_action (some (new text)) = text == "REQUEUE"
is_requeue_action (some _) = false

module _ (L : Libs) (C : Cluster) where
  unfoldable pub update_with :
      ScheduledBackup → Condition → ScheduledBackup × Option Err → C.State → Option Err × C.State
  update_with backup condition (res, some e) s = (some e, s)
  update_with backup condition (res, none) s =
      C.update_status_scheduled_backup backup.meta.namespace (updated_object L backup condition res)
        s

  -- The function that is retried.
  unfoldable pub update_attempt : ScheduledBackup → Condition → C.State → Option Err × C.State
  unfolding update_with
  update_attempt backup condition s =
      update_with backup condition
        (C.get_scheduled_backup
          (record { namespace = backup.meta.namespace; name = backup.meta.name }) s)
        s

module _ (L : Libs) (C : Cluster) {W : Workspace} where
  note_update_error : ObjectMeta → Option Err → World C W → World C W
  note_update_error object none w = w
  note_update_error object (some e) w =
      notify object "Warning" "ErrorOccurred" ("Cannot update .status field: " <> L.error_text e) w

  unfoldable pub update_object : ScheduledBackup → Condition → World C W → World C W
  unfolding note_update_error
  update_object backup condition w =
      let (e, c) = C.retry_on_conflict (update_attempt L C backup condition) w.cluster in
      note_update_error backup.meta e (record w { cluster = c })

  -- A dependency is missing. The error that stands beside the long wait is that of the fetch, nil here.
  dependencies_missing :
      ScheduledBackup
      → ScheduledBackupAggregate
      → Option Err
      → Err
      → World C W
      → Res Reply × World C W
  dependencies_missing backup a action e w =
      let w' =
        update_object a.scheduled_backup
          (condition_of "False" ("Cannot find required dependencies: " <> L.error_text e)) w in
      (
        ok (if is_requeue_action action then requeue 5 else requeue 900),
        notify backup.meta "Warning" "ErrorOccurred" (L.error_text e) w',
      )

  after_apply : ScheduledBackup → Res (Unit {0}) × Context C W → Res Reply × World C W
  after_apply backup (panic, s) = (panic, leave s)
  after_apply backup (err e, s) =
      let w =
        update_object (get_scheduled_backup s.backup)
          (condition_of "False"
            ("Cannot template or apply objects to the cluster: " <> L.error_text e))
          (leave s) in
      (ok (requeue 60), notify backup.meta "Warning" "ErrorOccurred" (L.error_text e) w)
  after_apply backup (ok _, s) =
      let w =
        update_object (get_scheduled_backup s.backup)
          (condition_of "True" "Successfully templated and applied objects to the cluster")
          (leave s) in
      (
        ok finished,
        notify backup.meta "Normal" "Updated"
            ("Successfully reconciled '"
              <> (backup.meta.name <> ("' from '" <> (backup.meta.namespace <> "' namespace"))))
            w,
      )

  unfoldable pub reconcile_aggregate :
      ScheduledBackup → Created ScheduledBackupAggregate → Go (World C W) Reply
  unfolding dependencies_missing after_apply
  reconcile_aggregate backup created w =
      let a = created.aggregate in
      let w' =
        update_object a.scheduled_backup
          (condition_of "Unknown"
            "Reconciling to template and push target objects to the cluster (Jobs/CronJobs and related things)")
          w in
      elim created.error [
        | some e ↦ dependencies_missing backup a created.controller_action e w'
        | none ↦ after_apply backup (apply_objects L C W (enter (scheduled_one a) w'))
      ]

module _ (L : Libs) (K : Crypto) (C : Cluster) {W : Workspace} where
  process : ScheduledBackup → Go (World C W) Reply
  unfolding reconcile_aggregate
  process backup =
      in_cluster (create_scheduled_backup_aggregate L K C backup "")
      >>= reconcile_aggregate L C backup

  reconcile_fetched : ℕ → ScheduledBackup × Option Err → Go (World C W) Reply
  unfolding process
  reconcile_fetched now (backup, some e) w = (ok (failed_with e), w)
  reconcile_fetched now (backup, none) w =
      if needs_processing L now backup then process backup w else (ok finished, w)

  -- What is done under the lock. `now` is the reading of the clock.
  unfoldable pub reconcile_body : ℕ → Request → Go (World C W) Reply
  unfolding reconcile_fetched
  reconcile_body now req w = reconcile_fetched now (fetch_scheduled_backup L K C req w.cluster) w

unfoldable pub reconcile :
    (L : Libs)
    → Crypto
    → (C : Cluster) → {W : Workspace} → (Lk : Locker) → ℕ
    → Request
    → Go (World C W × Lk.State) Reply
reconcile L K C Lk now req = under_lock L Lk req (reconcile_body L K C now req)
