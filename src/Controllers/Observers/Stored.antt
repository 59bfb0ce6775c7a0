-- ===== src/Controllers/Observers/Stored.antt =====
-- What the observers store, and when.
use backup_maker_controller.Prelude.{
  ◌≡◌, refl, subst, arith, Bool, true, false, not, ◌&&◌, Option, none, any, Err, ok,
}
use backup_maker_controller.Kube.{Request}
use backup_maker_controller.Libs.{Libs}
use backup_maker_controller.Cluster.{Cluster, RetryStops}
use backup_maker_controller.Api.ChildReference.{JobHealthStatus}
use backup_maker_controller.Api.RequestedBackupAction.{RequestedBackupAction}
use backup_maker_controller.Integration.{new_all_supported_job_resource_types}
use backup_maker_controller.Domain.Aggregate.{
  RequestedBackupActionAggregate, requested_one, get_references_of_owned_objects,
}
use backup_maker_controller.Controllers.{finished, requeue}
use backup_maker_controller.Controllers.Health.{HealthReport}
use backup_maker_controller.Controllers.Health.Report.{
  IsJust, is_none, create_owned_references_health_report-IsJust,
}
use backup_maker_controller.Controllers.Observers.{
  reported_action, save_action, action_attempt, settle, report_on, observe_action,
}

abbrev pub is_running : JobHealthStatus → Bool
is_running status = status.running

-- While a job of the report runs, an observer writes nothing and asks to run again in ten seconds.
pub settle_waits :
    (C : Cluster) (attempt : HealthReport → C.State → Option Err × C.State) (health : HealthReport)
    (s : C.State)
    → any is_running health.report ≡ true
    → settle C attempt (ok health) s ≡ (ok (requeue 10), s)
unfolding settle
settle_waits C attempt health s running = rw running refl

module _ (L : Libs) (C : Cluster) (req : Request) (a : RequestedBackupActionAggregate) (s : C.State)
    (health : HealthReport)
    (reported : report_on L C (get_references_of_owned_objects (requested_one a)) req.namespace s
      ≡ ok health) where
  verdict : IsJust (ok health)
  unfolding report_on
  verdict = subst IsJust reported (
      create_owned_references_health_report-IsJust L
        (new_all_supported_job_resource_types L (λ ns selector. C.list_jobs ns selector s))
        req.namespace (get_references_of_owned_objects (requested_one a)))

  module _ (res : RequestedBackupAction) (d : C.State)
      (got : C.get_requested_backup_action
          (record { namespace = a.action.meta.namespace; name = a.action.meta.name })
          s
        ≡ (res, none))
      (saved : C.update_status_requested_backup_action a.action.meta.namespace
          (reported_action a.action health res)
          s
        ≡ (none, d)) where
    action_attempt_saves : action_attempt C a.action health s ≡ (none, d)
    unfolding action_attempt save_action
    action_attempt_saves = rw (got, saved) refl

    settle_saves :
        (stops : RetryStops C)
        → any is_running health.report ≡ false
        → observe_action L C req a s ≡ (ok finished, d)
    unfolding observe_action settle
    settle_saves stops idle = ground (
      arith,
      reported,
      idle,
      stops.retry_success (action_attempt C a.action health) s d action_attempt_saves,
    )

  -- When no job of the report runs, the status of the action can be fetched and written, and the
  -- retry stops at a success, the observer is finished and the state of the cluster is the one
  -- that the write made; the written status has the report, is healthy exactly if the report has
  -- no error and no job that failed, and keeps the mark and the references of the aggregate.
  pub observe_action_stores :
      (stops : RetryStops C) (res : RequestedBackupAction) (d : C.State)
      → any is_running health.report ≡ false
      → C.get_requested_backup_action
          (record { namespace = a.action.meta.namespace; name = a.action.meta.name })
          s
        ≡ (res, none)
      → C.update_status_requested_backup_action a.action.meta.namespace
          (reported_action a.action health res)
          s
        ≡ (none, d)
      → let written = reported_action a.action health res in
        (observe_action L C req a s ≡ (ok finished, d))
        × (written.status.children_resources_health ≡ health.report)
        × (written.status.healthy
            ≡ (is_none health.error && not (any (λ (s : JobHealthStatus). s.failed) health.report)))
        × (written.status.processed ≡ a.action.status.processed)
        × (written.status.owned_references ≡ a.action.status.owned_references)
  unfolding reported_action
  observe_action_stores stops res d idle got saved =
      (settle_saves res d got saved stops idle, refl, verdict, refl, refl)
