-- ===== src/Factory/Fetching.antt =====
-- fetching.go's `FetchSBAggregate` and `FetchRBAAggregate`, which the observers and the reconciler of
-- actions call.
pub mod Frame
use backup_maker_controller.Prelude.{Option, none, some, Err, ok, err, panic, Go, pure, bind_res}
use backup_maker_controller.Kube.{Request, Result}
use backup_maker_controller.Libs.{Libs}
use backup_maker_controller.Cluster.{Cluster}
use backup_maker_controller.Api.ScheduledBackup.{ScheduledBackup}
use backup_maker_controller.Api.RequestedBackupAction.{RequestedBackupAction}
use backup_maker_controller.Gpg.{Crypto}
use backup_maker_controller.Domain.Aggregate.{
  ScheduledBackupAggregate, RequestedBackupActionAggregate,
}
use backup_maker_controller.Factory.Hydrate.{fetch_scheduled_backup, fetch_requested_backup_action}
use backup_maker_controller.Factory.Aggregates.{
  Created, create_scheduled_backup_aggregate, create_requested_backup_action_aggregate,
}

-- What `FetchRBAAggregate` returns: the aggregate, or the result of the controller and the error.
pub data Fetched : Type 0 where
  fetched : RequestedBackupActionAggregate → Fetched
  not_fetched : Result → Err → Fetched

fetched_of : Created RequestedBackupActionAggregate → Fetched
fetched_of c = elim c.error [
  | none ↦ fetched c.aggregate
  | some e ↦ not_fetched (record { requeue_after = 30 }) e
]

module _ (L : Libs) (K : Crypto) (C : Cluster) where
  fetch_sb_of : ScheduledBackup × Option Err → Go C.State ScheduledBackupAggregate
  fetch_sb_of (backup, some e) s = (err e, s)
  fetch_sb_of (backup, none) s =
      let (r, s') = create_scheduled_backup_aggregate L K C backup "" s in
      (
        elim r [
          | ok c ↦ elim c.error [ none ↦ ok c.aggregate | some e ↦ err e ]
          | err e ↦ err e
          | panic ↦ panic
        ],
        s',
      )

  -- The aggregate beside an error is not read by the caller and is left out.
  unfoldable pub fetch_sb_aggregate : Request → Go C.State ScheduledBackupAggregate
  unfolding fetch_sb_of
  fetch_sb_aggregate req s = fetch_sb_of (fetch_scheduled_backup L K C req s) s

  fetch_rba_backup : RequestedBackupAction → ScheduledBackup × Option Err → Go C.State Fetched
  unfolding fetched_of
  fetch_rba_backup action (backup, some e) s =
      (ok (not_fetched (record { requeue_after = 30 }) e), s)
  fetch_rba_backup action (backup, none) s =
      bind_res (create_requested_backup_action_aggregate L K C action backup s)
        (λ c. pure (fetched_of c))

  fetch_rba_action : RequestedBackupAction × Option Err → Go C.State Fetched
  unfolding fetch_rba_backup
  fetch_rba_action (action, some e) s = (ok (not_fetched (record { requeue_after = 30 }) e), s)
  fetch_rba_action (action, none) s =
      fetch_rba_backup action
        (fetch_scheduled_backup L K C
          (record {
            namespace = action.meta.namespace;
            name = action.spec.scheduled_backup_ref.name;
          })
          s)
        s

  unfoldable pub fetch_rba_aggregate : Request → Go C.State Fetched
  unfolding fetch_rba_action
  fetch_rba_aggregate req s = fetch_rba_action (fetch_requested_backup_action L K C req s) s
