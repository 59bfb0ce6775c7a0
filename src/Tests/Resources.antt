-- ===== src/Tests/Resources.antt =====
-- References, times, kinds and the health of jobs.
use backup_maker_controller.Api.ScheduledBackup.Changes.{
  HasFreshUnknown, is_being_reconciled_already_iff,
}
use backup_maker_controller.Prelude.{
  ◌*◌, ◌↔◌, true, ℕ, ◌≡◌, refl, false, List, [], ◌∷◌, ◌++◌, ok, gives, lacks,
}
use backup_maker_controller.Kube.{Unstructured, Condition, Job, mapping}
use backup_maker_controller.Api.ChildReference.{
  ChildReference, JobHealthStatus, add_owned_object, append_job_id_to, get_gvk,
}
use backup_maker_controller.Api.ChildReference.RoundTrip.{get_gvk-add_owned_object}
use backup_maker_controller.Api.ScheduledBackup.{
  second, is_being_reconciled_already, ScheduledBackup,
}
use backup_maker_controller.Domain.Aggregate.{Renderable, scheduled_one}
use backup_maker_controller.Factory.Aggregates.{fresh_aggregate}
use backup_maker_controller.Integration.{job_health_status}
use backup_maker_controller.Integration.Health.{Reports, job_health_status-Reports}
use backup_maker_controller.Controllers.Health.{create_owned_references_health_report}
use backup_maker_controller.Controllers.Health.Report.{
  IsJust, create_owned_references_health_report-IsJust,
}
use backup_maker_controller.Integration.{new_all_supported_job_resource_types}
use backup_maker_controller.Tests.Samples.{libs, sample_backup, named}

abbrev job_object : Unstructured
job_object = record {
  type_meta = record { api_version = "batch/v1"; kind = "Job" };
  metadata = mapping (named "dump");
  body = "";
}

get_gvk-add_owned_object_example :
    (cr : ChildReference) × (add_owned_object libs [] (append_job_id_to "id-1" job_object)
      ≡ [] ++ cr ∷ [])
    × (cr.tracking_id ≡ "id-1")
    × (get_gvk cr ≡ ok (record { group = "batch"; version = "v1"; kind = "Job" }))
unfolding lacks
get_gvk-add_owned_object_example = get_gvk-add_owned_object libs [] "id-1" job_object refl refl

abbrev unknown_since : ℕ → Condition
unknown_since t = record {
  condition_type = "BackupObjectsInstallation";
  status = "Unknown";
  observed_generation = 1;
  last_transition_time = t;
  reason = "SpecWasUpdated";
  message = "";
}

abbrev pub waiting : ScheduledBackup
waiting = record sample_backup {
  status = record sample_backup.status { conditions = unknown_since 0 ∷ [] };
}

is_being_reconciled_already_iff_example :
    (is_being_reconciled_already (59 * second) waiting ≡ true)
    ↔ HasFreshUnknown (59 * second) waiting.status.conditions
is_being_reconciled_already_iff_example = is_being_reconciled_already_iff (59 * second) waiting

abbrev sample_one : Renderable
sample_one = scheduled_one (fresh_aggregate sample_backup)

abbrev job_with : ℕ → ℕ → Job
job_with active failed = record {
  type_meta = record { api_version = "batch/v1"; kind = "Job" };
  meta = named "dump";
  active = active;
  failed = failed;
}

-- One job runs and another failed.
abbrev mixed : List Job
mixed = job_with 1 0 ∷ job_with 0 1 ∷ []

job_health_status-Reports_example :
    (s : JobHealthStatus) × (job_health_status libs (λ ns selector. gives mixed) "id-1" "ns"
      ≡ gives s)
    × Reports mixed false s
job_health_status-Reports_example =
    job_health_status-Reports libs (λ ns selector. gives mixed) "id-1" "ns" (job_with 1 0)
      (job_with 0 1 ∷ []) refl

create_owned_references_health_report-IsJust_example : IsJust (
    create_owned_references_health_report libs
      (new_all_supported_job_resource_types libs (λ ns selector. gives mixed))
      "ns"
      (record { api_version = "batch/v1"; kind = "Job"; tracking_id = "id-1" } ∷ []))
create_owned_references_health_report-IsJust_example =
    create_owned_references_health_report-IsJust libs
      (new_all_supported_job_resource_types libs (λ ns selector. gives mixed)) "ns"
      (record { api_version = "batch/v1"; kind = "Job"; tracking_id = "id-1" } ∷ [])
