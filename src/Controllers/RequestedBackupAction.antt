-- ===== src/Controllers/RequestedBackupAction.antt =====
-- requestedbackupaction_controller.go: the main loop for RequestedBackupAction objects.
pub mod Once
pub mod Rest
pub mod Story
use backup_maker_controller.Prelude.{
  String, ◌==◌, ◌<>◌, Bool, true, false, Option, none, some, Err, new, wrap, Res, ok, err, panic,
  Go, pure, ◌>>=◌, bind_res, lowers_to, if◌then◌else◌,
}
use backup_maker_controller.Kube.{Request, Result, Condition, ObjectMeta}
use backup_maker_controller.Libs.{Libs}
use backup_maker_controller.Cluster.{Cluster}
use backup_maker_controller.Workspace.{Workspace}
use backup_maker_controller.Gpg.{Crypto}
use backup_maker_controller.Locking.{Locker}
use backup_maker_controller.Api.RequestedBackupAction.{RequestedBackupAction}
use backup_maker_controller.Domain.Aggregate.{
  RequestedBackupActionAggregate, Renderable, scheduled_one, requested_one, mark_as_processed,
  was_already_processed,
}
use backup_maker_controller.Factory.Fetching.{Fetched, fetched, not_fetched, fetch_rba_aggregate}
use backup_maker_controller.Bmg.State.{Context}
use backup_maker_controller.Bmg.Apply.{apply_objects}
use backup_maker_controller.Controllers.{
  Reply, finished, requeue, condition_of, completed_condition, World, enter, leave, notify,
  in_cluster, under_lock,
}

-- What `updateObjectStatus` writes: the status of the aggregate's action goes into the fresh object.
unfoldable pub updated_action :
    Libs → RequestedBackupAction → Condition → RequestedBackupAction → RequestedBackupAction
unfolding completed_condition
updated_action L action condition res =
    let c = completed_condition res.meta.generation condition in
    record res {
      status = record action.status {
        conditions = L.set_status_condition action.status.conditions c;
        healthy = if lowers_to c.status "true" then action.status.healthy else false;
      };
    }

-- The aggregate behind the pointer after `ApplyObjects`.
action_of : Renderable → RequestedBackupActionAggregate → RequestedBackupActionAggregate
action_of (requested_one a) before = a
action_of (scheduled_one sb) before = before

module _ (L : Libs) (C : Cluster) where
  unfoldable pub update_with :
      RequestedBackupAction
      → Condition
      → RequestedBackupAction × Option Err
      → C.State
      → Option Err × C.State
  update_with action condition (res, some e) s = (some e, s)
  update_with action condition (res, none) s =
      C.update_status_requested_backup_action action.meta.namespace
        (updated_action L action condition res) s

  -- The function that is retried.
  unfoldable pub update_attempt : RequestedBackupAction → Condition → C.State → Option Err × C.State
  unfolding update_with
  update_attempt action condition s =
      update_with action condition
        (C.get_requested_backup_action
          (record { namespace = action.meta.namespace; name = action.meta.name }) s)
        s

module _ (L : Libs) (C : Cluster) {W : Workspace} where
  note_update_error : ObjectMeta → Option Err → World C W → World C W
  note_update_error object none w = w
  note_update_error object (some e) w =
      notify object "Warning" "ErrorOccurred" ("Cannot update .status field: " <> L.error_text e) w

  unfoldable pub update_object_status : RequestedBackupAction → Condition → World C W → World C W
  unfolding note_update_error
  update_object_status action condition w =
      let (e, c) = C.retry_on_conflict (update_attempt L C action condition) w.cluster in
      note_update_error action.meta e (record w { cluster = c })

  after_apply :
      RequestedBackupActionAggregate → Res (Unit {0}) × Context C W → Res Reply × World C W
  unfolding action_of mark_as_processed
  after_apply before (panic, s) = (panic, leave s)
  after_apply before (err e, s) =
      let action = (action_of s.backup before).action in
      let w =
        update_object_status action
          (condition_of "False" ("Cannot find required dependencies: " <> L.error_text e))
          (leave s) in
      (
        ok (record {
          result = record { requeue_after = 30 };
          error = some (wrap e "cannot ApplyObjects()");
        }),
        notify action.meta "Warning" "ErrorOccurred" (L.error_text e) w,
      )
  after_apply before (ok _, s) =
      let action = (mark_as_processed (action_of s.backup before)).action in
      let w =
        update_object_status action (condition_of "True" "Successfully templated and applied")
          (leave s) in
      (ok finished, notify action.meta "Normal" "Updated" "Successfully reconciled" w)

  unfoldable pub reconcile_aggregate : RequestedBackupActionAggregate → Go (World C W) Reply
  unfolding was_already_processed after_apply
  reconcile_aggregate a w =
      if was_already_processed a
      then (
        ok finished,
        notify a.action.meta "Normal" "Unchanged"
            "Successfully reconciled, action already performed, cannot do it once more" w,
      )
      else after_apply a (apply_objects L C W (enter (requested_one a) w))

  reconcile_fetched : Fetched → Go (World C W) Reply
  unfolding reconcile_aggregate
  reconcile_fetched (not_fetched result e) = pure (record { result = result; error = some e })
  reconcile_fetched (fetched a) = reconcile_aggregate a

module _ (L : Libs) (K : Crypto) (C : Cluster) {W : Workspace} where
  -- What is done under the lock.
  unfoldable pub reconcile_body : Request → Go (World C W) Reply
  unfolding reconcile_fetched
  reconcile_body req = in_cluster (fetch_rba_aggregate L K C req) >>= reconcile_fetched L C

unfoldable pub reconcile :
    (L : Libs)
    → Crypto
    → (C : Cluster) → {W : Workspace} → (Lk : Locker) → Request
    → Go (World C W × Lk.State) Reply
reconcile L K C Lk req = under_lock L Lk req (reconcile_body L K C req)
