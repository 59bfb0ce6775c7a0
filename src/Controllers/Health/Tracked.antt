-- ===== src/Controllers/Health/Tracked.antt =====
-- The report is about the jobs that were applied: it asks for the identifiers under which they were.
use backup_maker_controller.Prelude.{
  String, ◌<>◌, ◌≡◌, refl, sym, ap, subst, ◌∙◌, arith, eq_refl, Bool, true, false, not, ◌&&◌, ◌||◌,
  none, List, [], ◌∷◌, ◌++◌, any, any-snoc, lacks, length, Fallible, gives, ok, if◌then◌else◌, All,
  split-append, split_of_lacks,
}
use backup_maker_controller.Kube.{GroupVersionKind, Unstructured, Job}
use backup_maker_controller.Libs.{Libs}
use backup_maker_controller.Cluster.{Cluster}
use backup_maker_controller.Workspace.{Workspace}
use backup_maker_controller.Api.ChildReference.{
  ChildrenReferences, JobHealthStatus, get_gvk, label_tracking_id,
}
use backup_maker_controller.Domain.Aggregate.{get_references_of_owned_objects}
use backup_maker_controller.Integration.{
  job_failed, job_active, kubernetes_job_resource_type, new_all_supported_job_resource_types,
  get_scheduled_job_health_status, job_matches_gvk,
}
use backup_maker_controller.Integration.Health.{Reports, job_health_status-Reports}
use backup_maker_controller.Bmg.State.{Context}
use backup_maker_controller.Bmg.Apply.{apply_each}
use backup_maker_controller.Bmg.Apply.Trail.{
  drawn, length-drawn, tracking_ids, tracking_ids-refs_of, ref_of, refs_of, Adds, Adds-apply_each,
}
use backup_maker_controller.Controllers.Health.{
  HealthReport, answer_of, round, collect, create_owned_references_health_report,
}

abbrev pub job_gvk : GroupVersionKind
job_gvk = record { group = "batch"; version = "v1"; kind = "Job" }

module _ (L : Libs) where
  -- The object is a Job.
  abbrev pub IsJob : Unstructured → Type 0
  IsJob doc = L.group_version_kind doc.type_meta ≡ job_gvk

  get_gvk-ref_of :
      (id : String) (doc : Unstructured) → IsJob doc → get_gvk (ref_of L id doc) ≡ ok job_gvk
  unfolding get_gvk lacks
  get_gvk-ref_of id doc h = rw (h, split-append "batch" "v1" refl, split_of_lacks "v1" refl) refl

  module _ (list : String → String → Fallible (List Job)) (namespace : String)
      (first : String → Job) (others : String → List Job) where
    -- The jobs under an identifier, of which there is one at least, are listed.
    abbrev pub IsListed : String → Type 0
    IsListed id = list namespace (label_tracking_id <> ("=" <> id)) ≡ gives (first id ∷ others id)

    abbrev pub has_failed : String → Bool
    has_failed id = any job_failed (first id ∷ others id)

    abbrev pub is_active : String → Bool
    is_active id = not (has_failed id) && any job_active (first id ∷ others id)

    asked :
        (id : String)
        → IsListed id
        → (s : JobHealthStatus) × (get_scheduled_job_health_status
              (new_all_supported_job_resource_types L list)
              job_gvk
              id
              namespace
            ≡ gives s)
          × Reports (first id ∷ others id) false s
    unfolding get_scheduled_job_health_status new_all_supported_job_resource_types
        kubernetes_job_resource_type job_matches_gvk
    asked id h =
        let (s, e, r) = job_health_status-Reports L list id namespace (first id) (others id) h in
        (s, rw (eq_refl (L.gvk_string job_gvk)) e, r)

    -- What a report says of identifiers, beside what was known before.
    abbrev pub Says : List String → List JobHealthStatus → Bool → HealthReport → Type 0
    Says ids report healthy r =
        (r.error ≡ none)
        × (r.healthy ≡ (healthy && not (any has_failed ids)))
        × (any (λ (s : JobHealthStatus). s.running) r.report
            ≡ (any (λ (s : JobHealthStatus). s.running) report || any is_active ids))

    module _ (W : Workspace) where
      collect-Says :
          (docs : List Unstructured) (d : W.State) (report : List JobHealthStatus) (healthy : Bool)
          → All IsJob docs
          → All IsListed (drawn W (length docs) d)
          → let ids = drawn W (length docs) d in
            (r : HealthReport) × (collect L
                (new_all_supported_job_resource_types L list)
                namespace
                report
                healthy
                (refs_of L ids docs)
              ≡ ok r)
            × Says ids report healthy r
      unfolding collect round answer_of
      collect-Says [] d report healthy are listed = (_, refl, (refl, ground arith, ground arith))
      collect-Says (doc ∷ docs) d report healthy (is, are) (l, listed) =
          let (id, d') = W.new_uuid d in
          let (s, e, said) = asked id l in
          let (r, done, (error, verdict, running)) =
            collect-Says docs d' (report ++ s ∷ []) (if s.failed then false else healthy) are
              listed in
          (
            r,
            rw (get_gvk-ref_of id doc is, e) done,
            (
              error,
              ground (arith, verdict, said.failing),
              ground (
                arith,
                running,
                said.active,
                any-snoc (λ (s : JobHealthStatus). s.running) report s,
              ),
            ),
          )

      -- What is applied is what is observed: where Jobs are applied without an error for a resource that owned
      -- nothing, and the API lists the jobs under each identifier that the resource now refers to, one
      -- at least, the report on the resource has no error, is healthy exactly if none of these
      -- jobs failed, and says that a job runs exactly if under some identifier none failed and one is
      -- active; and there is one identifier for each object.
      pub applied_jobs_are_reported :
          (C : Cluster) (docs : List Unstructured) (s t : Context C W)
          → apply_each L C W docs s ≡ (ok tt, t)
          → get_references_of_owned_objects s.backup ≡ []
          → All IsJob docs
          → All IsListed (tracking_ids (get_references_of_owned_objects t.backup))
          → let ids = tracking_ids (get_references_of_owned_objects t.backup) in
            (r : HealthReport) × (create_owned_references_health_report L
                (new_all_supported_job_resource_types L list)
                namespace
                (get_references_of_owned_objects t.backup)
              ≡ ok r)
            × Says ids [] true r
            × (length ids ≡ length docs)
      unfolding create_owned_references_health_report
      applied_jobs_are_reported C docs s t applied fresh are listed =
          let ids = drawn W (length docs) s.disk in
          let recorded : Adds L C W (get_references_of_owned_objects s.backup) (refs_of L ids docs)
              (ok tt, t) =
            subst (Adds L C W (get_references_of_owned_objects s.backup) (refs_of L ids docs))
              applied (Adds-apply_each L C W docs s) in
          let refs : get_references_of_owned_objects t.backup ≡ refs_of L ids docs =
            recorded ∙ ap (λ (before : ChildrenReferences). before ++ refs_of L ids docs) fresh in
          let same : tracking_ids (get_references_of_owned_objects t.backup) ≡ ids =
            ap tracking_ids refs ∙ tracking_ids-refs_of L W docs s.disk in
          let (r, done, says) =
            collect-Says docs s.disk [] true are (subst (All IsListed) same listed) in
          (
            r,
            subst
                (λ (refs : ChildrenReferences).
                  create_owned_references_health_report L
                    (new_all_supported_job_resource_types L list) namespace refs
                  ≡ ok r)
                (sym refs) done,
            subst (λ xs. Says xs [] true r) (sym same) says,
            rw same (length-drawn W (length docs) s.disk),
          )
