-- ===== src/Factory/Fetching/Frame.antt =====
-- A fetch changes nothing in the cluster but Secrets, and the aggregate has the status that the cluster
-- holds.
use backup_maker_controller.Prelude.{
  ◌≡◌, refl, Option, none, some, Err, Res, ok, err, panic, pure, bind_res,
}
use backup_maker_controller.Kube.{Request}
use backup_maker_controller.Libs.{Libs}
use backup_maker_controller.Cluster.{Cluster}
use backup_maker_controller.Gpg.{Crypto}
use backup_maker_controller.Api.ScheduledBackup.{ScheduledBackup}
use backup_maker_controller.Api.RequestedBackupAction.{
  RequestedBackupAction, RequestedBackupActionStatus,
}
use backup_maker_controller.Domain.Aggregate.{
  ScheduledBackupAggregate, RequestedBackupActionAggregate,
}
use backup_maker_controller.Factory.Hydrate.{fetch_scheduled_backup, fetch_requested_backup_action}
use backup_maker_controller.Factory.Hydrate.Frame.{IsSecretFree, Kept, kept}
use backup_maker_controller.Factory.Aggregates.{
  Created, create_scheduled_backup_aggregate, create_requested_backup_action_aggregate,
}
use backup_maker_controller.Factory.Aggregates.Identity.{
  IsFor, create_scheduled_backup_aggregate-IsFor,
}
use backup_maker_controller.Factory.Aggregates.Frame.{
  HasStatus, create_scheduled_backup_aggregate-Kept, create_requested_backup_action_aggregate-Kept,
}
use backup_maker_controller.Factory.Fetching.{
  Fetched, fetched, not_fetched, fetched_of, fetch_rba_backup, fetch_rba_action,
  fetch_rba_aggregate, fetch_sb_of, fetch_sb_aggregate,
}

-- If the fetch answered with an aggregate, its action has the status.
abbrev pub HasFetchedStatus : RequestedBackupActionStatus → Res Fetched → Type 0
HasFetchedStatus status (ok (fetched a)) = a.action.status ≡ status
HasFetchedStatus status (ok (not_fetched result e)) = Unit
HasFetchedStatus status (err e) = Unit
HasFetchedStatus status panic = Unit

module _ (L : Libs) (K : Crypto) (C : Cluster) (P : C.State → Type 0) (F : IsSecretFree C P)
    (action : RequestedBackupAction) where
  fetched_of-status :
      (c : Created RequestedBackupActionAggregate) (e : Option Err)
      → c.error ≡ e
      → HasStatus action.status (ok c)
      → HasFetchedStatus action.status (ok (fetched_of c))
  unfolding fetched_of
  fetched_of-status c none h status = rw h status
  fetched_of-status c (some e) h status = rw h tt

  bind_fetched :
      (r : Res (Created RequestedBackupActionAggregate) × C.State)
      → Kept P r
      → HasStatus action.status r.0
      → let made = bind_res r (λ c. pure (fetched_of c)) in
        Kept P made × HasFetchedStatus action.status made.0
  unfolding Kept
  bind_fetched (ok c, s) h status = (h, fetched_of-status c c.error refl status)
  bind_fetched (err e, s) h status = (h, tt)
  bind_fetched (panic, s) h status = (h, tt)

  fetch_rba_backup-Kept :
      (r : ScheduledBackup × Option Err) (s : C.State)
      → P s
      → let made = fetch_rba_backup L K C action r s in
        Kept P made × HasFetchedStatus action.status made.0
  unfolding fetch_rba_backup
  fetch_rba_backup-Kept (backup, some e) s h = (kept P _ s h, tt)
  fetch_rba_backup-Kept (backup, none) s h =
      let (frame, status) =
        create_requested_backup_action_aggregate-Kept L action K C P F backup s h in
      bind_fetched (create_requested_backup_action_aggregate L K C action backup s) frame status

  pub fetch_rba_aggregate-Kept :
      (req : Request) (s : C.State)
      → fetch_requested_backup_action L K C req s ≡ (action, none)
      → P s
      → let made = fetch_rba_aggregate L K C req s in
        Kept P made × HasFetchedStatus action.status made.0
  unfolding fetch_rba_aggregate fetch_rba_action
  fetch_rba_aggregate-Kept req s got h = rw got (fetch_rba_backup-Kept _ s h)

  -- A failed read of the action fails the fetch, and changes nothing.
  pub fetch_rba_aggregate-failed :
      (req : Request) (s : C.State) (e : Err)
      → fetch_requested_backup_action L K C req s ≡ (action, some e)
      → fetch_rba_aggregate L K C req s ≡ (ok (not_fetched (record { requeue_after = 30 }) e), s)
  unfolding fetch_rba_aggregate fetch_rba_action
  fetch_rba_aggregate-failed req s e got = rw got refl

-- If the fetch answered with an aggregate, it is for the backup.
abbrev pub IsFetchedFor : ScheduledBackup → Res ScheduledBackupAggregate → Type 0
IsFetchedFor backup (ok a) = a.scheduled_backup ≡ backup
IsFetchedFor backup (err e) = Unit
IsFetchedFor backup panic = Unit

created_aggregate : Res (Created ScheduledBackupAggregate) → Res ScheduledBackupAggregate
created_aggregate (ok c) = elim c.error [ none ↦ ok c.aggregate | some e ↦ err e ]
created_aggregate (err e) = err e
created_aggregate panic = panic

created_aggregate-IsFetchedFor :
    (backup : ScheduledBackup) (r : Res (Created ScheduledBackupAggregate))
    → IsFor backup r
    → IsFetchedFor backup (created_aggregate r)
unfolding created_aggregate
created_aggregate-IsFetchedFor backup (ok c) same = of_error c.error
  where
    of_error :
        (e : Option Err) → IsFetchedFor backup (elim e [ none ↦ ok c.aggregate | some e ↦ err e ])
    of_error none = same
    of_error (some e) = tt
created_aggregate-IsFetchedFor backup (err e) same = tt
created_aggregate-IsFetchedFor backup panic same = tt

module _ (L : Libs) (K : Crypto) (C : Cluster) (P : C.State → Type 0) (F : IsSecretFree C P)
    (backup : ScheduledBackup) (req : Request) (s : C.State) where
  pub fetch_sb_aggregate-Kept :
      fetch_scheduled_backup L K C req s ≡ (backup, none)
      → P s
      → let made = fetch_sb_aggregate L K C req s in Kept P made × IsFetchedFor backup made.0
  unfolding fetch_sb_aggregate fetch_sb_of created_aggregate Kept
  fetch_sb_aggregate-Kept got h = rw got (
    create_scheduled_backup_aggregate-Kept L K C P F backup "" s h,
    created_aggregate-IsFetchedFor backup (create_scheduled_backup_aggregate L K C backup "" s).0
        (create_scheduled_backup_aggregate-IsFor L K C backup "" s),
  )

  pub fetch_sb_aggregate-failed :
      (e : Err)
      → fetch_scheduled_backup L K C req s ≡ (backup, some e)
      → fetch_sb_aggregate L K C req s ≡ (err e, s)
  unfolding fetch_sb_aggregate fetch_sb_of
  fetch_sb_aggregate-failed e got = rw got refl
