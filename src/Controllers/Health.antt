-- ===== src/Controllers/Health.antt =====
-- owned_references_health.go: the health of all the jobs that a resource owns.
pub mod Report
pub mod Tracked
use backup_maker_controller.Prelude.{
  String, ◌==◌, Bool, true, false, not, Option, none, some, List, [], ◌∷◌, ◌++◌, Err, Fallible,
  gives, fails, Res, ok, err, panic, if◌then◌else◌,
}
use backup_maker_controller.Kube.{GroupVersionKind}
use backup_maker_controller.Libs.{Libs}
use backup_maker_controller.Api.ChildReference.{
  ChildReference, ChildrenReferences, JobHealthStatus, get_gvk,
}
use backup_maker_controller.Integration.{
  SupportedJobResourceType, get_scheduled_job_health_status, error_unrecognized_resource_type,
}

-- The three results of `createOwnedReferencesHealthReport`.
pub record HealthReport : Type 0 where
  pub report : List JobHealthStatus
  pub healthy : Bool
  pub error : Option Err

module _ (L : Libs) (supported : List SupportedJobResourceType) (namespace : String) where
  abbrev pub status_of : GroupVersionKind → ChildReference → Fallible JobHealthStatus
  status_of gvk ref = get_scheduled_job_health_status supported gvk ref.tracking_id namespace

  -- Kinds such as Secrets have no adapter, and are passed over.
  abbrev pub is_ignored : Err → Bool
  is_ignored e = L.error_text e == error_unrecognized_resource_type

  answer_of : Res GroupVersionKind → ChildReference → Res (Fallible JobHealthStatus)
  answer_of (ok gvk) ref = ok (status_of gvk ref)
  answer_of (err e) ref = err e
  answer_of panic ref = panic

  -- One round: the report and the verdict so far, and the rest of the loop.
  round :
      Res (Fallible JobHealthStatus)
      → List JobHealthStatus
      → Bool
      → (List JobHealthStatus → Bool → Res HealthReport)
      → Res HealthReport
  round (ok (gives status)) report healthy next =
      next (report ++ status ∷ []) (if status.failed then false else healthy)
  round (ok (fails e)) report healthy next =
      if is_ignored e
      then next report healthy
      else ok (record { report = report; healthy = false; error = some e })
  round (err e) report healthy next = err e
  round panic report healthy next = panic

  collect : List JobHealthStatus → Bool → ChildrenReferences → Res HealthReport
  unfolding round answer_of
  collect report healthy [] = ok (record { report = report; healthy = healthy; error = none })
  collect report healthy (ref ∷ refs) =
      round (answer_of (get_gvk ref) ref) report healthy (λ r h. collect r h refs)

  unfoldable pub create_owned_references_health_report : ChildrenReferences → Res HealthReport
  unfolding collect
  create_owned_references_health_report refs = collect [] true refs
