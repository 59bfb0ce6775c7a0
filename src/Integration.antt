-- ===== src/Integration.antt =====
-- pkg/integration: the health of the jobs behind a reference, and the service that asks the adapter of
-- the reference's kind.
pub mod Health
use backup_maker_controller.Prelude.{
  ℕ, ltb, String, ◌<>◌, ◌==◌, Bool, true, false, not, Option, none, some, List, [], ◌∷◌, read, Err,
  Fallible, gives, fails, if◌then◌else◌,
}
use backup_maker_controller.Kube.{GroupVersionKind, Job}
use backup_maker_controller.Libs.{Libs}
use backup_maker_controller.Api.ChildReference.{ChildReference, JobHealthStatus, label_tracking_id}

abbrev pub error_unrecognized_resource_type : String
error_unrecognized_resource_type = "unrecognized resource type"

-- `SupportedJobResourceType`, at one moment of the cluster.
pub record SupportedJobResourceType : Type 0 where
  pub matches_gvk : GroupVersionKind → Bool
  pub get_scheduled_job_health_status : String → String → Fallible JobHealthStatus

abbrev pub job_failed : Job → Bool
job_failed job = ltb 0 job.failed

abbrev pub job_active : Job → Bool
job_active job = ltb 0 job.active

failed_status : Job → JobHealthStatus
failed_status job = record {
  child = record {
    api_version = job.type_meta.api_version;
    kind = job.type_meta.kind;
    tracking_id = read label_tracking_id job.meta.labels;
  };
  message = "Job " <> (job.meta.namespace <> ("/" <> (job.meta.name <> " failed")));
  succeeded = false;
  running = false;
  failed = true;
}

summary_status : String → String → Bool → JobHealthStatus
summary_status tracking_id namespace running = record {
  child = record { api_version = "v1"; kind = "Job"; tracking_id = tracking_id };
  message =
      "All labelled jobs by "
      <> (label_tracking_id
          <> ("=" <> (tracking_id <> (" succeed in " <> (namespace <> " namespace")))));
  succeeded = not running;
  running = running;
  failed = false;
}

-- The loop over the jobs: it returns at the first job that failed.
scan_jobs : String → String → Bool → List Job → JobHealthStatus
scan_jobs tracking_id namespace running [] = summary_status tracking_id namespace running
scan_jobs tracking_id namespace running (job ∷ jobs) =
    let rest = scan_jobs tracking_id namespace (if job_active job then true else running) jobs in
    if job_failed job then failed_status job else rest

report_jobs : String → String → Fallible (List Job) → Fallible JobHealthStatus
unfolding scan_jobs failed_status summary_status
report_jobs tracking_id namespace (fails e) = fails (Err.wrap e "cannot list integration")
report_jobs tracking_id namespace (gives []) =
    fails (
      Err.new ("cannot find any job labelled with " <> (label_tracking_id <> ("=" <> tracking_id))))
report_jobs tracking_id namespace (gives (job ∷ jobs)) =
    gives (scan_jobs tracking_id namespace false (job ∷ jobs))

-- `list` answers `client.Jobs(namespace).List` for a namespace and a label selector.
module _ (L : Libs) (list : String → String → Fallible (List Job)) where
  unfoldable pub job_matches_gvk : GroupVersionKind → Bool
  job_matches_gvk gvk =
      L.gvk_string gvk == L.gvk_string (record { group = "batch"; version = "v1"; kind = "Job" })

  unfoldable pub job_health_status : String → String → Fallible JobHealthStatus
  unfolding report_jobs
  job_health_status tracking_id namespace =
      report_jobs tracking_id namespace (list namespace (label_tracking_id <> ("=" <> tracking_id)))

  unfoldable pub kubernetes_job_resource_type : SupportedJobResourceType
  unfolding job_matches_gvk job_health_status
  kubernetes_job_resource_type = record {
    matches_gvk = job_matches_gvk;
    get_scheduled_job_health_status = job_health_status;
  }

  unfoldable pub new_all_supported_job_resource_types : List SupportedJobResourceType
  unfolding kubernetes_job_resource_type
  new_all_supported_job_resource_types = kubernetes_job_resource_type ∷ []

-- The first adapter that knows the kind answers.
unfoldable pub get_scheduled_job_health_status :
    List SupportedJobResourceType → GroupVersionKind → String → String → Fallible JobHealthStatus
get_scheduled_job_health_status [] gvk tracking_id namespace =
    fails (Err.new error_unrecognized_resource_type)
get_scheduled_job_health_status (r ∷ supported) gvk tracking_id namespace =
    let rest = get_scheduled_job_health_status supported gvk tracking_id namespace in
    if r.matches_gvk gvk then r.get_scheduled_job_health_status tracking_id namespace else rest
