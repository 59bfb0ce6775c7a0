-- ===== src/Tests/Tracking.antt =====
-- Two Jobs that are applied for an action, and the report on them.
use backup_maker_controller.Prelude.{
  String, ◌≡◌, refl, sym, subst, All, length, lookup, assign, List, [], ◌∷◌, ok, Fallible, gives,
  true,
}
use backup_maker_controller.Kube.{Job, empty_meta, meta_of}
use backup_maker_controller.Api.ChildReference.{append_job_id_to, add_owned_object}
use backup_maker_controller.Domain.Aggregate.{add_owned, get_references_of_owned_objects}
use backup_maker_controller.Integration.{new_all_supported_job_resource_types}
use backup_maker_controller.Bmg.State.{Context}
use backup_maker_controller.Bmg.Apply.{apply_each, create_or_update}
use backup_maker_controller.Bmg.Apply.Trail.{tracking_ids}
use backup_maker_controller.Controllers.Health.{HealthReport, create_owned_references_health_report}
use backup_maker_controller.Controllers.Health.Tracked.{IsListed, Says, applied_jobs_are_reported}
use backup_maker_controller.Tests.Samples.{libs, cluster, workspace}
use backup_maker_controller.Tests.Rendering.{context, job_named}

abbrev working_job : Job
working_job = record {
  type_meta = record { api_version = "batch/v1"; kind = "Job" };
  meta = empty_meta;
  active = 1;
  failed = 0;
}

abbrev listing : String → String → Fallible (List Job)
listing namespace selector = gives (working_job ∷ [])

abbrev left : Context cluster workspace
left = (apply_each libs cluster workspace (job_named "a" ∷ job_named "b" ∷ []) context).1

both_applied :
    apply_each libs cluster workspace (job_named "a" ∷ job_named "b" ∷ []) context ≡ (ok tt, left)
unfolding apply_each create_or_update append_job_id_to meta_of
both_applied = refl

both_listed : tracking_ids (get_references_of_owned_objects left.backup) ≡ "id-1" ∷ "id-1" ∷ []
unfolding apply_each create_or_update append_job_id_to meta_of get_references_of_owned_objects
    add_owned add_owned_object lookup assign
both_listed = refl

applied_jobs_are_reported_example :
    let ids = tracking_ids (get_references_of_owned_objects left.backup) in
    (r : HealthReport) × (create_owned_references_health_report libs
        (new_all_supported_job_resource_types libs listing)
        "ns"
        (get_references_of_owned_objects left.backup)
      ≡ ok r)
    × Says libs listing "ns" (λ id. working_job) (λ id. []) ids [] true r
    × (length ids ≡ 2)
unfolding get_references_of_owned_objects
applied_jobs_are_reported_example =
    applied_jobs_are_reported libs listing "ns" (λ id. working_job) (λ id. []) workspace cluster
      (job_named "a" ∷ job_named "b" ∷ []) context left both_applied refl (refl, (refl, tt))
      (subst (All (IsListed libs listing "ns" (λ id. working_job) (λ id. []))) (sym both_listed)
        (refl, (refl, tt)))
