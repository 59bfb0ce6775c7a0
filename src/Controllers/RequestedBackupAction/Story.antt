-- ===== src/Controllers/RequestedBackupAction/Story.antt =====
-- RequestedBackupActionReconciler and JobsManagedByRequestedBackupActionObserver: from the application of an
-- action to the verdict on its jobs.
use backup_maker_controller.Prelude.{
  String, ◌==◌, ◌≡◌, ◌<◌, refl, sym, subst, ap, ◌∙◌, arith, eq_iff, true, false, not, Option, none,
  List, [], ◌∷◌, all, any, length, Err, Fallible, ok, All,
}
use backup_maker_controller.Kube.{GroupVersionKind, Unstructured, Job, Request}
use backup_maker_controller.Api.ChildReference.{ChildrenReferences}
use backup_maker_controller.Api.RequestedBackupAction.{
  RequestedBackupAction, RequestedBackupActionStatus,
}
use backup_maker_controller.Libs.{Libs}
use backup_maker_controller.Cluster.{Cluster, RetryStops}
use backup_maker_controller.Workspace.{Workspace}
use backup_maker_controller.Domain.Aggregate.{
  RequestedBackupActionAggregate, requested_one, was_already_processed, mark_as_processed,
  get_references_of_owned_objects,
}
use backup_maker_controller.Domain.ResourceTypes.{job}
use backup_maker_controller.Integration.{new_all_supported_job_resource_types}
use backup_maker_controller.Bmg.State.{Context}
use backup_maker_controller.Bmg.Render.Kinds.{render_for_action-jobs}
use backup_maker_controller.Bmg.Apply.{apply_objects}
use backup_maker_controller.Bmg.Apply.Whole.{apply_objects-HasApplied}
use backup_maker_controller.Bmg.Apply.Trail.{tracking_ids}
use backup_maker_controller.Controllers.{World, enter, finished}
use backup_maker_controller.Controllers.RequestedBackupAction.{updated_action, reconcile_aggregate}
use backup_maker_controller.Controllers.RequestedBackupAction.Once.{
  applied, applied_action_is_marked,
}
use backup_maker_controller.Controllers.Observers.{report_on, reported_action, observe_action}
use backup_maker_controller.Controllers.Observers.Stored.{observe_action_stores}
use backup_maker_controller.Controllers.Health.{HealthReport, create_owned_references_health_report}
use backup_maker_controller.Controllers.Health.Tracked.{
  job_gvk, IsJob, IsListed, has_failed, is_active, Says, applied_jobs_are_reported,
}

-- What apimachinery documents: the text of the kind of a Job is that of no other kind.
pub record TellsJobs (L : Libs) : Type 0 where
  pub tells_jobs : (kind : GroupVersionKind) → L.gvk_string kind ≡ L.gvk_string job → kind ≡ job

-- The jobs that the API lists in one state of the cluster.
abbrev pub listing : (C : Cluster) → C.State → String → String → Fallible (List Job)
listing C s namespace selector = C.list_jobs namespace selector s

module _ (L : Libs) (T : TellsJobs L) where
  jobs_of_texts :
      (docs : List Unstructured)
      → all
          (λ (doc : Unstructured).
            L.gvk_string (L.group_version_kind doc.type_meta) == L.gvk_string job)
          docs
        ≡ true
      → All (IsJob L) docs
  jobs_of_texts [] h = tt
  jobs_of_texts (doc ∷ docs) h = (
    T.tells_jobs (L.group_version_kind doc.type_meta) (
        ground (
          arith,
          h,
          eq_iff (L.gvk_string (L.group_version_kind doc.type_meta)) (L.gvk_string job),
        )),
    jobs_of_texts docs (ground (arith, h)),
  )

  module _ (list : String → String → Fallible (List Job)) (namespace : String)
      (first : String → Job) (others : String → List Job) where
    -- What is applied for an action is what is reported of it.
    applied_action_is_reported :
        (C : Cluster) (W : Workspace) (a : RequestedBackupActionAggregate) (s t : Context C W)
        → s.backup ≡ requested_one a
        → a.action.status.owned_references ≡ []
        → apply_objects L C W s ≡ (ok tt, t)
        → All
            (IsListed L list namespace first others)
            (tracking_ids (get_references_of_owned_objects t.backup))
        → let ids = tracking_ids (get_references_of_owned_objects t.backup) in
          (r : HealthReport) × (create_owned_references_health_report L
              (new_all_supported_job_resource_types L list)
              namespace
              (get_references_of_owned_objects t.backup)
            ≡ ok r)
          × Says L list namespace first others ids [] true r
          × (0 < length ids)
    unfolding get_references_of_owned_objects
    applied_action_is_reported C W a s t is_action fresh done listed =
        let (docs, s', are, some_docs, same, applied) =
          apply_objects-HasApplied L C W (λ t. L.group_version_kind t ≡ job_gvk) s t
            (λ docs e. jobs_of_texts docs (render_for_action-jobs L W a s docs is_action e)) done in
        let (r, reported, says, n) =
          applied_jobs_are_reported L list namespace first others W C docs s' t applied
            (same ∙ ap get_references_of_owned_objects is_action ∙ fresh) are listed in
        (r, reported, says, omega (arith, some_docs, n))

  module _ (C : Cluster) (W : Workspace) (a a' : RequestedBackupActionAggregate)
      (unprocessed : was_already_processed a ≡ false)
      (fresh : a.action.status.owned_references ≡ []) (w : World C W) (s : Context C W)
      (left : s.backup ≡ requested_one a') (stops : RetryStops C) where
    -- From its application to the verdict on its jobs: an action that is not processed and owns nothing is
    -- rendered and applied without an error, its status is fetched and written, the retry stops at a
    -- success, and the text of the kind of a Job is that of no other kind. Later the observer finds an
    -- action with the written status, the API lists the jobs under each identifier that it refers to,
    -- one at least, of which none is active, the status can be fetched, and a written status is
    -- accepted. Then the reconciler and the observer were finished, the action refers to one object
    -- at least, and the status that the observer wrote last is marked as processed, and healthy
    -- exactly if none of these jobs failed.
    pub applied_action_is_judged :
        (res : RequestedBackupAction) (d : C.State)
        → apply_objects L C W (enter (requested_one a) w) ≡ (ok tt, s)
        → C.get_requested_backup_action
            (record { namespace = a'.action.meta.namespace; name = a'.action.meta.name })
            s.cluster
          ≡ (res, none)
        → C.update_status_requested_backup_action a'.action.meta.namespace
            (updated_action L (mark_as_processed a').action applied res)
            s.cluster
          ≡ (none, d)
        → (b : RequestedBackupActionAggregate) (req : Request) (now : C.State)
          (first : String → Job) (others : String → List Job)
        → b.action.status ≡ (updated_action L (mark_as_processed a').action applied res).status
        → let ids = tracking_ids b.action.status.owned_references in
          All (IsListed L (listing C now) req.namespace first others) ids
          → any (is_active L (listing C now) req.namespace first others) ids ≡ false
          → (res' : RequestedBackupAction)
          → C.get_requested_backup_action
              (record { namespace = b.action.meta.namespace; name = b.action.meta.name })
              now
            ≡ (res', none)
          → ((action : RequestedBackupAction)
              → (C.update_status_requested_backup_action b.action.meta.namespace action now).0
                ≡ none)
          → let (r, w') = reconcile_aggregate L C a w in
            (r ≡ ok finished)
            × (w'.cluster ≡ d)
            × (0 < length ids)
            × ((written : RequestedBackupAction) × (observe_action L C req b now ≡ (
              ok finished,
              (C.update_status_requested_backup_action b.action.meta.namespace written now).1,
            ))
                × (written.status.processed ≡ true)
                × (written.status.healthy
                    ≡ not (any (has_failed L (listing C now) req.namespace first others) ids)))
    unfolding get_references_of_owned_objects report_on reported_action
    applied_action_is_judged res d done got saved b req now first others seen listed idle res' got'
          accepted =
        let (finishes, stored, processed, references) =
          applied_action_is_marked L C W a a' unprocessed w s left stops res d done got saved in
        let same : b.action.status.owned_references ≡ get_references_of_owned_objects s.backup =
          ap (λ (status : RequestedBackupActionStatus). status.owned_references) seen
          ∙ references
          ∙ sym (ap get_references_of_owned_objects left) in
        let (health, reported, (no_error, verdict, running), n) =
          applied_action_is_reported (listing C now) req.namespace first others C W a
            (enter (requested_one a) w) s refl fresh done
            (subst
              (λ (refs : ChildrenReferences).
                All (IsListed L (listing C now) req.namespace first others) (tracking_ids refs))
              same listed) in
        let written = reported_action b.action health res' in
        let failed = has_failed L (listing C now) req.namespace first others in
        let active = is_active L (listing C now) req.namespace first others in
        let quiet : any active (tracking_ids (get_references_of_owned_objects s.backup)) ≡ false =
          subst (λ (refs : ChildrenReferences). any active (tracking_ids refs) ≡ false) same idle in
        let (ends, _, _, _, _) =
          observe_action_stores L C req b now health
            (subst
              (λ (refs : ChildrenReferences).
                create_owned_references_health_report L
                  (new_all_supported_job_resource_types L (listing C now)) req.namespace refs
                ≡ ok health)
              (sym same) reported)
            stops res'
            (C.update_status_requested_backup_action b.action.meta.namespace written now).1
            (running ∙ quiet) got'
            (ap
              (λ (e : Option Err). (
                e,
                (C.update_status_requested_backup_action b.action.meta.namespace written now).1,
              ))
              (accepted written)) in
        (
          finishes,
          stored,
          subst (λ (refs : ChildrenReferences). 0 < length (tracking_ids refs)) (sym same) n,
          (
            written,
            ends,
            ap (λ (status : RequestedBackupActionStatus). status.processed) seen ∙ processed,
            subst
                (λ (refs : ChildrenReferences).
                  health.healthy ≡ not (any failed (tracking_ids refs)))
                (sym same) verdict,
          ),
        )
