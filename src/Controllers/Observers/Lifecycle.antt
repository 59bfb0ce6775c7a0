-- ===== src/Controllers/Observers/Lifecycle.antt =====
-- The rounds of the reconciler and of the observer of one action, in any order.
use backup_maker_controller.Prelude.{
  String, ◌≡◌, refl, ◌∙◌, Bool, if◌then◌else◌, true, false, Option, none, some, List, [], ◌∷◌, any,
  Err, Res, ok, err, panic, bind_res,
}
use backup_maker_controller.Kube.{Request}
use backup_maker_controller.Libs.{Libs}
use backup_maker_controller.Cluster.{Cluster}
use backup_maker_controller.Workspace.{Workspace}
use backup_maker_controller.Gpg.{Crypto}
use backup_maker_controller.Api.ChildReference.{JobHealthStatus}
use backup_maker_controller.Api.RequestedBackupAction.{
  RequestedBackupAction, RequestedBackupActionStatus, empty_requested_backup_action,
}
use backup_maker_controller.Factory.Hydrate.{fetch_requested_backup_action}
use backup_maker_controller.Factory.Hydrate.Frame.{IsSecretFree, Kept, kept}
use backup_maker_controller.Factory.Fetching.{Fetched, fetched, not_fetched, fetch_rba_aggregate}
use backup_maker_controller.Factory.Fetching.Frame.{
  HasFetchedStatus, fetch_rba_aggregate-Kept, fetch_rba_aggregate-failed,
}
use backup_maker_controller.Controllers.{Reply, finished, requeue, World}
use backup_maker_controller.Controllers.Health.{HealthReport}
use backup_maker_controller.Controllers.RequestedBackupAction.{reconcile_body, reconcile}
use backup_maker_controller.Controllers.RequestedBackupAction.Rest.{reconcile_body-rests}
use backup_maker_controller.Locking.{Locker}
use backup_maker_controller.Controllers.Lock.{under_lock_keeps}
use backup_maker_controller.Controllers.Observers.{
  reported_action, save_action, action_attempt, settle, observe_action, observe_fetched_action,
  requested_backup_action_body, observe_requested_backup_action,
}

pub data Round : Type 0 where
  reconciles : Round
  observes : Round

module _ (L : Libs) (K : Crypto) (C : Cluster) {W : Workspace} (Lk : Locker) (req : Request) where
  -- A round of either, under the lock.
  abbrev pub play : Round → World C W × Lk.State → World C W × Lk.State
  play reconciles (w, locks) = (reconcile L K C Lk req (w, locks)).1
  play observes (w, locks) =
      let (r, (c, locks')) = observe_requested_backup_action L K C Lk req (w.cluster, locks) in
      (record w { cluster = c }, locks')

  abbrev pub play_all : List Round → World C W × Lk.State → World C W × Lk.State
  play_all [] s = s
  play_all (r ∷ rs) s = play_all rs (play r s)

abbrev is_running : JobHealthStatus → Bool
is_running status = status.running

-- A predicate on the cluster under which every read of the action is one of a processed action, and which
-- the calls keep: a write of a Secret, a write of a processed status, and a retry of attempts that keep it.
pub record SaysProcessed (L : Libs) (K : Crypto) (C : Cluster) (req : Request)
    (P : C.State → Type 0) : Type 0 where
  pub secrets : IsSecretFree C P
  pub reads :
      (s : C.State) (action : RequestedBackupAction)
      → P s
      → fetch_requested_backup_action L K C req s ≡ (action, none)
      → action.status.processed ≡ true
  pub writes :
      (namespace : String) (action : RequestedBackupAction) (s : C.State)
      → action.status.processed ≡ true
      → P s
      → P (C.update_status_requested_backup_action namespace action s).1
  pub retries :
      (attempt : C.State → Option Err × C.State) (s : C.State)
      → ((t : C.State) → P t → P (attempt t).1)
      → P s
      → P (C.retry_on_conflict attempt s).1

module _ (C : Cluster) (P : C.State → Type 0) where
  -- Of two outcomes, whichever is taken.
  either-keeps : (b : Bool) (x y : Res Reply × C.State) → P x.1 → P y.1 → P (if b then x else y).1
  either-keeps true x y h i = h
  either-keeps false x y h i = i

  -- A retry keeps what each attempt keeps.
  abbrev pub RetriesKeep : Type 0
  RetriesKeep =
      (attempt : C.State → Option Err × C.State) (s : C.State)
      → ((t : C.State) → P t → P (attempt t).1)
      → P s
      → P (C.retry_on_conflict attempt s).1

  -- What each attempt to store a report keeps is kept by the end of an observation.
  pub settle-keeps :
      RetriesKeep
      → (attempt : HealthReport → C.State → Option Err × C.State)
      → ((health : HealthReport) (t : C.State) → P t → P (attempt health t).1)
      → (report : Res HealthReport) (s : C.State) → P s
      → P (settle C attempt report s).1
  unfolding settle
  settle-keeps retries attempt keeps panic s h = h
  settle-keeps retries attempt keeps (err e) s h = h
  settle-keeps retries attempt keeps (ok health) s h =
      either-keeps (any is_running health.report) (ok (requeue 10), s)
        (ok finished, (C.retry_on_conflict (attempt health) s).1) h
        (retries (attempt health) s (keeps health) h)

module _ (L : Libs) (K : Crypto) (C : Cluster) (req : Request) (P : C.State → Type 0)
    (M : SaysProcessed L K C req P) where
  -- What a fetch leaves, and the status of what it finds.
  abbrev FetchesProcessed : Res Fetched × C.State → Type 0
  FetchesProcessed r =
      (status : RequestedBackupActionStatus) × (status.processed ≡ true)
      × Kept P r
      × HasFetchedStatus status r.0

  fetch-Processed :
      (s : C.State) (read : RequestedBackupAction × Option Err)
      → fetch_requested_backup_action L K C req s ≡ read
      → P s
      → FetchesProcessed (fetch_rba_aggregate L K C req s)
  fetch-Processed s (action, none) got h =
      let (frame, status) = fetch_rba_aggregate-Kept L K C P M.secrets action req s got h in
      (action.status, M.reads s action h got, frame, status)
  fetch-Processed s (action, some e) got h =
      rw (fetch_rba_aggregate-failed L K C P M.secrets action req s e got)
        (record empty_requested_backup_action.status { processed = true }, refl, kept P _ s h, tt)

  save_action-keeps :
      (action : RequestedBackupAction) (health : HealthReport)
      (read : RequestedBackupAction × Option Err) (s : C.State)
      → action.status.processed ≡ true
      → P s
      → P (save_action C action health read s).1
  unfolding save_action reported_action
  save_action-keeps action health (res, none) s processed h = M.writes _ _ s processed h
  save_action-keeps action health (res, some e) s processed h = h

  observed-keeps :
      (status : RequestedBackupActionStatus) (r : Res Fetched × C.State)
      → status.processed ≡ true
      → Kept P r
      → HasFetchedStatus status r.0
      → P (bind_res r (observe_fetched_action L C req)).1
  unfolding Kept observe_fetched_action observe_action action_attempt
  observed-keeps status (ok (fetched a), s) processed h same =
      settle-keeps C P M.retries (action_attempt C a.action)
        (λ health t h.
          save_action-keeps a.action health (C.get_requested_backup_action _ t) t
            (rw same processed) h)
        _ s h
  observed-keeps status (ok (not_fetched result e), s) processed h same = h
  observed-keeps status (err e, s) processed h same = h
  observed-keeps status (panic, s) processed h same = h

  -- What a round leaves, beside what it found.
  abbrev IsKept : {W : Workspace} → World C W → World C W → Type 0
  IsKept before w = (w.disk ≡ before.disk) × P w.cluster

  reconcile_body-keeps :
      {W : Workspace} (w : World C W) → P w.cluster → IsKept w (reconcile_body L K C req w).1
  reconcile_body-keeps w h =
      let (status, processed, frame, same) = fetch-Processed w.cluster _ refl h in
      reconcile_body-rests L K C P req w status (fetch_rba_aggregate L K C req w.cluster) refl
        processed frame same

  observer_body-keeps : (s : C.State) → P s → P (requested_backup_action_body L K C req s).1
  unfolding requested_backup_action_body
  observer_body-keeps s h =
      let (status, processed, frame, same) = fetch-Processed s _ refl h in
      observed-keeps status (fetch_rba_aggregate L K C req s) processed frame same

  module _ {W : Workspace} (Lk : Locker) where
    play-keeps :
        (r : Round) (w : World C W) (locks : Lk.State)
        → P w.cluster
        → IsKept w (play L K C Lk req r (w, locks)).0
    unfolding reconcile observe_requested_backup_action
    play-keeps reconciles w locks h =
        under_lock_keeps L Lk req (IsKept w) (reconcile_body L K C req) w locks (refl, h)
          (reconcile_body-keeps w h)
    play-keeps observes w locks h = (
      refl,
      under_lock_keeps L Lk req P (requested_backup_action_body L K C req) w.cluster locks h
          (observer_body-keeps w.cluster h),
    )

    -- Once an action is processed it stays processed, and is not performed again: with every locker, whatever
    -- rounds the reconciler and the observer of the action do, in any order, and whatever each returns, the
    -- disk stays as it is, and a predicate on the cluster stays true under which each read of the action is
    -- one of a processed action, if writes of Secrets, writes of a processed status and retries keep it.
    pub processed_for_good :
        (rs : List Round) (w : World C W) (locks : Lk.State)
        → P w.cluster
        → let w' = (play_all L K C Lk req rs (w, locks)).0 in (w'.disk ≡ w.disk) × P w'.cluster
    processed_for_good [] w locks h = (refl, h)
    processed_for_good (r ∷ rs) w locks h =
        let (w', locks') = play L K C Lk req r (w, locks) in
        let (same, next) = play-keeps r w locks h in
        let (same', end) = processed_for_good rs w' locks' next in (same' ∙ same, end)
