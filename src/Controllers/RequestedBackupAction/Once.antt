-- ===== src/Controllers/RequestedBackupAction/Once.antt =====
-- How often an action is performed, and what its status says.
use backup_maker_controller.Prelude.{
  ◌<>◌, ◌≡◌, refl, ap, subst, ◌∙◌, arith, Res, panic, true, false, none, some, Err, wrap, ok, err,
  lowers_to,
}
use backup_maker_controller.Kube.{Request, Condition}
use backup_maker_controller.Libs.{Libs}
use backup_maker_controller.Cluster.{Cluster, RetryStops}
use backup_maker_controller.Workspace.{Workspace}
use backup_maker_controller.Gpg.{Crypto}
use backup_maker_controller.Api.RequestedBackupAction.{
  RequestedBackupAction, RequestedBackupActionStatus,
}
use backup_maker_controller.Domain.Aggregate.{
  RequestedBackupActionAggregate, requested_one, mark_as_processed, was_already_processed,
}
use backup_maker_controller.Factory.Fetching.{fetched, fetch_rba_aggregate}
use backup_maker_controller.Bmg.State.{Context}
use backup_maker_controller.Bmg.Apply.{apply_objects}
use backup_maker_controller.Bmg.Apply.Mark.{mark, apply_objects-mark}
use backup_maker_controller.Controllers.{
  finished, World, enter, leave, condition_of, completed_condition, notify,
}
use backup_maker_controller.Controllers.RequestedBackupAction.{
  updated_action, update_with, update_attempt, note_update_error, update_object_status, action_of,
  after_apply, reconcile_aggregate, reconcile_fetched, reconcile_body,
}

abbrev pub applied : Condition
applied = condition_of "True" "Successfully templated and applied"

abbrev pub not_applied : Libs → Err → Condition
not_applied L e = condition_of "False" ("Cannot find required dependencies: " <> L.error_text e)

-- An action that was processed is not applied again: beyond what the fetch does to the cluster, the
-- reconciler only records that nothing changed.
pub processed_action_is_left :
    (L : Libs) (K : Crypto) (C : Cluster) {W : Workspace} (req : Request) (w : World C W)
    (a : RequestedBackupActionAggregate) (c : C.State)
    → fetch_rba_aggregate L K C req w.cluster ≡ (ok (fetched a), c)
    → a.action.status.processed ≡ true
    → reconcile_body L K C req w ≡ (
      ok finished,
      notify a.action.meta "Normal" "Unchanged"
          "Successfully reconciled, action already performed, cannot do it once more"
          (record w { cluster = c }),
    )
unfolding reconcile_body reconcile_fetched reconcile_aggregate was_already_processed
processed_action_is_left L K C req w a c got processed = rw (got, processed) refl

module _ (L : Libs) (C : Cluster) (action : RequestedBackupAction) (condition : Condition)
    (s : C.State) (res : RequestedBackupAction) (c : C.State)
    (got : C.get_requested_backup_action
        (record { namespace = action.meta.namespace; name = action.meta.name })
        s
      ≡ (res, none))
    (saved : C.update_status_requested_backup_action action.meta.namespace
        (updated_action L action condition res)
        s
      ≡ (none, c)) where
  update_attempt_saves : update_attempt L C action condition s ≡ (none, c)
  unfolding update_attempt update_with
  update_attempt_saves = rw got saved

  update_object_status_saves :
      {W : Workspace} (stops : RetryStops C) (w : World C W)
      → w.cluster ≡ s
      → update_object_status L C action condition w ≡ record w { cluster = c }
  unfolding update_object_status note_update_error
  update_object_status_saves stops w at = ground (
    arith,
    at,
    stops.retry_success (update_attempt L C action condition) s c update_attempt_saves,
  )

-- The written status: marked, with all the references of the aggregate, and healthy if that was.
updated_action_marks :
    (L : Libs) (a : RequestedBackupActionAggregate) (res : RequestedBackupAction)
    → let written = updated_action L (mark_as_processed a).action applied res in
      (written.status.processed ≡ true)
      × (written.status.owned_references ≡ a.action.status.owned_references)
      × (written.status.healthy ≡ a.action.status.healthy)
unfolding updated_action completed_condition mark_as_processed lowers_to
updated_action_marks L a res = (refl, refl, refl)

updated_action_keeps :
    (L : Libs) (action : RequestedBackupAction) (e : Err) (res : RequestedBackupAction)
    → let written = updated_action L action (not_applied L e) res in
      (written.status.healthy ≡ false) × (written.status.processed ≡ action.status.processed)
unfolding updated_action completed_condition lowers_to
updated_action_keeps L action e res = (refl, refl)

-- What follows an application leaves the disk as it is.
after_apply-disk :
    (L : Libs) (C : Cluster) (W : Workspace) (a : RequestedBackupActionAggregate)
    (r : Res (Unit {0})) (s : Context C W)
    → (after_apply L C a (r, s)).1.disk ≡ s.disk
unfolding after_apply update_object_status note_update_error
after_apply-disk L C W a (ok _) s = ground arith
after_apply-disk L C W a (err e) s = ground arith
after_apply-disk L C W a panic s = refl

unprocessed_is_applied :
    (L : Libs) (C : Cluster) (W : Workspace) (b : RequestedBackupActionAggregate) (w : World C W)
    → was_already_processed b ≡ false
    → (reconcile_aggregate L C b w).1.disk
      ≡ (apply_objects L C W (enter (requested_one b) w)).1.disk
unfolding reconcile_aggregate
unprocessed_is_applied L C W b w next =
    let (r, s) = apply_objects L C W (enter (requested_one b) w) in
    ground (arith, next, after_apply-disk L C W b r s)

module _ (L : Libs) (C : Cluster) (W : Workspace) (a a' : RequestedBackupActionAggregate)
    (unprocessed : was_already_processed a ≡ false) (w : World C W) (s : Context C W)
    (left : s.backup ≡ requested_one a') where
  -- An action that is not processed and is applied is done with: where its status can be fetched
  -- and written, and the retry stops at a success, the reconciler is finished, the state of the
  -- cluster is the one that the write made, and the written object is marked as processed and has
  -- the references that the aggregate has after the application.
  pub applied_action_is_marked :
      (stops : RetryStops C) (res : RequestedBackupAction) (d : C.State)
      → apply_objects L C W (enter (requested_one a) w) ≡ (ok tt, s)
      → C.get_requested_backup_action
          (record { namespace = a'.action.meta.namespace; name = a'.action.meta.name })
          s.cluster
        ≡ (res, none)
      → C.update_status_requested_backup_action a'.action.meta.namespace
          (updated_action L (mark_as_processed a').action applied res)
          s.cluster
        ≡ (none, d)
      → let (r, w') = reconcile_aggregate L C a w in
        let written = updated_action L (mark_as_processed a').action applied res in
        (r ≡ ok finished)
        × (w'.cluster ≡ d)
        × (written.status.processed ≡ true)
        × (written.status.owned_references ≡ a'.action.status.owned_references)
  unfolding reconcile_aggregate after_apply action_of mark_as_processed
  applied_action_is_marked stops res d done got saved =
      let action = (mark_as_processed a').action in
      let stored =
        update_object_status_saves L C action applied s.cluster res d got saved stops (leave s)
          refl in
      let (marked, references, _) = updated_action_marks L a' res in
      rw (done, unprocessed, left)
        (refl, ap (λ (v : World C W). v.cluster) stored, marked, references)

  -- An action that is not processed and cannot be applied is tried again: where its status can be
  -- fetched and written, and the retry stops at a success, the reconciler replies with the error
  -- and with 30 seconds, the state of the cluster is the one that the write made, and the written
  -- status is not healthy and not marked as processed; and a later round on an aggregate whose
  -- action has the written status renders and applies once more, whatever comes of it: it leaves
  -- the disk as this application does.
  pub failed_action_is_retried :
      (stops : RetryStops C) (e : Err) (res : RequestedBackupAction) (d : C.State)
      → apply_objects L C W (enter (requested_one a) w) ≡ (err e, s)
      → C.get_requested_backup_action
          (record { namespace = a'.action.meta.namespace; name = a'.action.meta.name })
          s.cluster
        ≡ (res, none)
      → C.update_status_requested_backup_action a'.action.meta.namespace
          (updated_action L a'.action (not_applied L e) res)
          s.cluster
        ≡ (none, d)
      → (b : RequestedBackupActionAggregate) (later : World C W)
      → b.action.status ≡ (updated_action L a'.action (not_applied L e) res).status
      → let (r, w') = reconcile_aggregate L C a w in
        let written = updated_action L a'.action (not_applied L e) res in
        (r
          ≡ ok (record {
            result = record { requeue_after = 30 };
            error = some (wrap e "cannot ApplyObjects()");
          }))
        × (w'.cluster ≡ d)
        × (written.status.healthy ≡ false)
        × (written.status.processed ≡ false)
        × ((reconcile_aggregate L C b later).1.disk
            ≡ (apply_objects L C W (enter (requested_one b) later)).1.disk)
  unfolding reconcile_aggregate after_apply action_of was_already_processed
  failed_action_is_retried stops e res d failed got saved b later seen =
      let stored =
        update_object_status_saves L C a'.action (not_applied L e) s.cluster res d got saved stops
          (leave s) refl in
      let (unhealthy, unmarked) = updated_action_keeps L a'.action e res in
      let same : mark s.backup ≡ mark (requested_one a) =
        subst (λ (end : Res (Unit {0}) × Context C W). mark end.1.backup ≡ mark (requested_one a))
          failed (apply_objects-mark L C W (enter (requested_one a) w)) in
      let still : a'.action.status.processed ≡ false = ground (arith, same, left, unprocessed) in
      let next : was_already_processed b ≡ false =
        ap (λ (status : RequestedBackupActionStatus). status.processed) seen ∙ unmarked ∙ still in
      let (replies, at) : ((reconcile_aggregate L C a w).0
            ≡ ok (record {
              result = record { requeue_after = 30 };
              error = some (wrap e "cannot ApplyObjects()");
            }))
          × ((reconcile_aggregate L C a w).1.cluster ≡ d) =
        rw (failed, unprocessed, left) (refl, ap (λ (v : World C W). v.cluster) stored) in
      (replies, at, unhealthy, unmarked ∙ still, unprocessed_is_applied L C W b later next)
