-- ===== src/Controllers/RequestedBackupAction/Rest.antt =====
-- The rounds after the one that performed an action.
use backup_maker_controller.Prelude.{
  ℕ, zero, suc, ◌≡◌, refl, ◌∙◌, true, false, none, Res, ok, err, panic,
}
use backup_maker_controller.Kube.{Request}
use backup_maker_controller.Libs.{Libs}
use backup_maker_controller.Cluster.{Cluster, RetryStops}
use backup_maker_controller.Workspace.{Workspace}
use backup_maker_controller.Gpg.{Crypto}
use backup_maker_controller.Api.RequestedBackupAction.{
  RequestedBackupAction, RequestedBackupActionStatus,
}
use backup_maker_controller.Domain.Aggregate.{
  RequestedBackupActionAggregate, requested_one, mark_as_processed, was_already_processed,
}
use backup_maker_controller.Factory.Hydrate.{fetch_requested_backup_action}
use backup_maker_controller.Factory.Hydrate.Frame.{IsSecretFree, Kept, both-IsSecretFree}
use backup_maker_controller.Factory.Fetching.{Fetched, fetched, not_fetched, fetch_rba_aggregate}
use backup_maker_controller.Factory.Fetching.Frame.{HasFetchedStatus, fetch_rba_aggregate-Kept}
use backup_maker_controller.Bmg.State.{Context}
use backup_maker_controller.Bmg.Apply.{apply_objects}
use backup_maker_controller.Controllers.{World, enter}
use backup_maker_controller.Controllers.RequestedBackupAction.{
  updated_action, reconcile_aggregate, reconcile_fetched, reconcile_body,
}
use backup_maker_controller.Controllers.RequestedBackupAction.Once.{
  applied, applied_action_is_marked,
}

-- The reconciler runs again and again on one request.
abbrev pub rounds :
    (L : Libs) (K : Crypto) (C : Cluster) {W : Workspace} → Request → ℕ → World C W → World C W
rounds L K C req zero w = w
rounds L K C req (suc n) w = rounds L K C req n (reconcile_body L K C req w).1

module _ (L : Libs) (K : Crypto) (C : Cluster) {W : Workspace} (P : C.State → Type 0)
    (req : Request) (w : World C W) where
  pub reconcile_body-rests :
      (status : RequestedBackupActionStatus) (r : Res Fetched × C.State)
      → fetch_rba_aggregate L K C req w.cluster ≡ r
      → status.processed ≡ true
      → Kept P r
      → HasFetchedStatus status r.0
      → let w' = (reconcile_body L K C req w).1 in (w'.disk ≡ w.disk) × P w'.cluster
  unfolding Kept reconcile_body reconcile_fetched reconcile_aggregate was_already_processed
  reconcile_body-rests status (ok (fetched a), c) got processed h same =
      rw (got, same, processed) (refl, h)
  reconcile_body-rests status (ok (not_fetched result e), c) got processed h same = rw got (refl, h)
  reconcile_body-rests status (err e, c) got processed h same = rw got (refl, h)
  reconcile_body-rests status (panic, c) got processed h same = rw got (refl, h)

module _ (L : Libs) (K : Crypto) (C : Cluster) (req : Request)
    (action : RequestedBackupAction) where
  -- The cluster holds the action.
  abbrev pub Stands : C.State → Type 0
  Stands s = fetch_requested_backup_action L K C req s ≡ (action, none)

module _ (L : Libs) (K : Crypto) (C : Cluster) {W : Workspace} (req : Request)
    (action : RequestedBackupAction) (processed : action.status.processed ≡ true)
    (fetches : IsSecretFree C (Stands L K C req action)) (P : C.State → Type 0)
    (F : IsSecretFree C P) where
  round-rests :
      (w : World C W)
      → Stands L K C req action w.cluster × P w.cluster
      → let w' = (reconcile_body L K C req w).1 in
        (w'.disk ≡ w.disk) × Stands L K C req action w'.cluster × P w'.cluster
  round-rests w h =
      let (frame, status) =
        fetch_rba_aggregate-Kept L K C (λ s. Stands L K C req action s × P s)
          (both-IsSecretFree C (Stands L K C req action) P fetches F) action req w.cluster h.0 h in
      let (same, (at, kept)) =
        reconcile_body-rests L K C (λ s. Stands L K C req action s × P s) req w action.status
          (fetch_rba_aggregate L K C req w.cluster) refl processed frame status in
      (same, at, kept)

  -- An action that the cluster holds as processed is never performed again: where a write of a Secret
  -- does not change the read of the action, any number of rounds, whatever each of them returns, leaves
  -- the disk and the action as they are, and keeps every property of the cluster that writes of Secrets
  -- keep.
  pub processed_action_rests :
      (n : ℕ) (w : World C W)
      → Stands L K C req action w.cluster
      → P w.cluster
      → let w' = rounds L K C req n w in
        (w'.disk ≡ w.disk) × Stands L K C req action w'.cluster × P w'.cluster
  processed_action_rests zero w at h = (refl, at, h)
  processed_action_rests (suc n) w at h =
      let (same, at', h') = round-rests w (at, h) in
      let (same', at_end, h_end) = processed_action_rests n (reconcile_body L K C req w).1 at' h' in
      (same' ∙ same, at_end, h_end)

module _ (L : Libs) (K : Crypto) (C : Cluster) (W : Workspace)
    (a a' : RequestedBackupActionAggregate) (unprocessed : was_already_processed a ≡ false)
    (w : World C W) (s : Context C W) (left : s.backup ≡ requested_one a') (req : Request)
    (res : RequestedBackupAction) where
  -- An action is performed once: where one that is not processed is applied, its status can be fetched and
  -- written, the retry stops at a success, the written action can be read back, and a write of a
  -- Secret does not change that read, every number of further rounds leaves the disk as the first
  -- left it, and keeps every property of the cluster that writes of Secrets keep.
  pub action_is_performed_once :
      (stops : RetryStops C) (d : C.State) (P : C.State → Type 0) (n : ℕ)
      → apply_objects L C W (enter (requested_one a) w) ≡ (ok tt, s)
      → C.get_requested_backup_action
          (record { namespace = a'.action.meta.namespace; name = a'.action.meta.name })
          s.cluster
        ≡ (res, none)
      → C.update_status_requested_backup_action a'.action.meta.namespace
          (updated_action L (mark_as_processed a').action applied res)
          s.cluster
        ≡ (none, d)
      → Stands L K C req (updated_action L (mark_as_processed a').action applied res) d
      → IsSecretFree C
          (Stands L K C req (updated_action L (mark_as_processed a').action applied res))
      → IsSecretFree C P
      → P d
      → let first = (reconcile_aggregate L C a w).1 in
        let w' = rounds L K C req n first in (w'.disk ≡ first.disk) × P w'.cluster
  action_is_performed_once stops d P n done got saved visible fetches F h =
      let (_, at, marked, _) =
        applied_action_is_marked L C W a a' unprocessed w s left stops res d done got saved in
      let first = (reconcile_aggregate L C a w).1 in
      let (same, _, kept) =
        processed_action_rests L K C req
          (updated_action L (mark_as_processed a').action applied res) marked fetches P F n first
          (rw at visible) (rw at h) in
      (same, kept)
