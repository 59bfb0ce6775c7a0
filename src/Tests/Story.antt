-- ===== src/Tests/Story.antt =====
-- An action from its application to the verdict on its jobs.
use backup_maker_controller.Prelude.{
  String, ◌==◌, ◌≡◌, ◌<◌, ◌&&◌, refl, sym, subst, All, arith, eq_iff, Bool, true, false, not, any,
  length, if◌then◌else◌, List, [], ◌∷◌, ok, assign, split, trim, remove_first, lookup, read,
  has_prefix, ap,
}
use backup_maker_controller.Kube.{GroupVersionKind, Job, empty_meta, meta_of}
use backup_maker_controller.Libs.{Libs}
use backup_maker_controller.Api.ChildReference.{append_job_id_to, add_owned_object}
use backup_maker_controller.Api.RequestedBackupAction.{RequestedBackupAction}
use backup_maker_controller.Api.Template.{
  provides_script, get_backup_script, get_image, get_name, get_restore_script,
}
use backup_maker_controller.Domain.Aggregate.{
  RequestedBackupActionAggregate, Renderable, requested_one, scheduled_one, mark_as_processed,
  was_already_processed, should_render_dependent_objects_for_all_operation_types, get_template,
  get_backup_aggregate, get_operation, set_var, get_scheduled_backup,
  get_object_for_owner_reference, add_owned, accepted_resource_types,
}
use backup_maker_controller.Domain.ResourceTypes.{
  job, new_resource_types_filter_for_requested_backup_action,
}
use backup_maker_controller.Gpg.{or_made}
use backup_maker_controller.Bmg.State.{Context}
use backup_maker_controller.Bmg.Definition.{
  write_definition, merged_vars, is_skipped, contains, var_sources,
}
use backup_maker_controller.Bmg.Manifests.{parse_rendered_manifests, wanted}
use backup_maker_controller.Bmg.Render.{
  write_template, write_gpg_key, script_for, render_kubernetes_resources_for,
  render_kubernetes_resources_for_operation,
}
use backup_maker_controller.Bmg.Apply.{apply_objects, prepare_all, apply_each, create_or_update}
use backup_maker_controller.Bmg.Apply.Trail.{tracking_ids}
use backup_maker_controller.Controllers.{finished, enter}
use backup_maker_controller.Controllers.RequestedBackupAction.{updated_action, reconcile_aggregate}
use backup_maker_controller.Controllers.RequestedBackupAction.Once.{applied}
use backup_maker_controller.Controllers.RequestedBackupAction.Story.{
  TellsJobs, listing, applied_action_is_judged,
}
use backup_maker_controller.Controllers.Observers.{observe_action}
use backup_maker_controller.Controllers.Health.Tracked.{IsListed, has_failed, is_active}
use backup_maker_controller.Tests.Samples.{
  libs, cluster, cluster-RetryStops, Server, server, workspace, req,
}
use backup_maker_controller.Tests.Rendering.{action_aggregate}
use backup_maker_controller.Tests.Controlling.{world}

abbrev is_job : GroupVersionKind → Bool
is_job g = g.group == "batch" && g.version == "v1" && g.kind == "Job"

abbrev kind_text : Bool → String
kind_text b = if b then "batch/v1, Kind=Job" else "another kind"

-- The text of a kind says whether it is that of a Job.
abbrev telling : Libs
telling = record libs { gvk_string = λ g. kind_text (is_job g) }

said_of_jobs : (b : Bool) → kind_text b ≡ kind_text true → b ≡ true
said_of_jobs true same = refl
said_of_jobs false same = ground (arith, ap (λ text. text == kind_text true) same)

same_kind : (g : GroupVersionKind) → g.group ≡ "batch" → g.version ≡ "v1" → g.kind ≡ "Job" → g ≡ job
same_kind g group version kind = λ i. record { group = group i; version = version i; kind = kind i }

only_job : (g : GroupVersionKind) → is_job g ≡ true → g ≡ job
only_job g h =
    same_kind g (ground (arith, h, eq_iff g.group "batch"))
      (ground (arith, h, eq_iff g.version "v1")) (ground (arith, h, eq_iff g.kind "Job"))

telling-TellsJobs : TellsJobs telling
telling-TellsJobs = record { tells_jobs = λ g same. only_job g (said_of_jobs (is_job g) same) }

abbrev action_in : Renderable → RequestedBackupActionAggregate
action_in (requested_one a) = a
action_in (scheduled_one sb) = record action_aggregate { scheduled = sb }

abbrev after : Context cluster workspace
after = (apply_objects telling cluster workspace (enter (requested_one action_aggregate) world)).1

abbrev left : RequestedBackupActionAggregate
left = action_in after.backup

abbrev written : RequestedBackupAction
written = updated_action telling (mark_as_processed left).action applied after.cluster.requested

abbrev finished_job : Job
finished_job = record {
  type_meta = record { api_version = "batch/v1"; kind = "Job" };
  meta = empty_meta;
  active = 0;
  failed = 0;
}

-- The server when the observer comes, and the aggregate that it fetches.
abbrev now : Server
now = record server { requested = written; jobs = finished_job ∷ [] }

abbrev observed : RequestedBackupActionAggregate
observed = record action_aggregate { action = written }

was_applied :
    (apply_objects telling cluster workspace (enter (requested_one action_aggregate) world)
      ≡ (ok tt, after))
    × (after.backup ≡ requested_one left)
unfolding apply_objects render_kubernetes_resources_for
    should_render_dependent_objects_for_all_operation_types
    render_kubernetes_resources_for_operation get_template write_template provides_script
    write_gpg_key get_backup_aggregate get_operation write_definition merged_vars set_var assign
    is_skipped parse_rendered_manifests split trim remove_first add_owned_object append_job_id_to
    get_backup_script get_image get_name get_restore_script apply_each create_or_update prepare_all
    contains var_sources wanted script_for accepted_resource_types add_owned
    get_object_for_owner_reference get_scheduled_backup
    new_resource_types_filter_for_requested_backup_action or_made meta_of lookup read has_prefix
was_applied = (refl, refl)

ids_left : tracking_ids written.status.owned_references ≡ "id-1" ∷ []
unfolding apply_objects render_kubernetes_resources_for
    should_render_dependent_objects_for_all_operation_types
    render_kubernetes_resources_for_operation get_template write_template provides_script
    write_gpg_key get_backup_aggregate get_operation write_definition merged_vars set_var assign
    is_skipped parse_rendered_manifests split trim remove_first add_owned_object append_job_id_to
    get_backup_script get_image get_name get_restore_script apply_each create_or_update prepare_all
    contains var_sources wanted script_for accepted_resource_types add_owned
    get_object_for_owner_reference get_scheduled_backup
    new_resource_types_filter_for_requested_backup_action or_made meta_of lookup read has_prefix
    updated_action mark_as_processed
ids_left = refl

abbrev ids : List String
ids = tracking_ids written.status.owned_references

applied_action_is_judged_example :
    let (r, w) = reconcile_aggregate telling cluster action_aggregate world in
    (r ≡ ok finished)
    × (w.cluster ≡ record after.cluster { requested = written })
    × (0 < length ids)
    × ((stored : RequestedBackupAction) × (observe_action telling cluster req observed now
          ≡ (ok finished, record now { requested = stored }))
        × (stored.status.processed ≡ true)
        × (stored.status.healthy
            ≡ not (
                any
                  (has_failed telling (listing cluster now) "ns" (λ id. finished_job) (λ id. []))
                  ids)))
unfolding was_already_processed
applied_action_is_judged_example =
    applied_action_is_judged telling telling-TellsJobs cluster workspace action_aggregate left refl
      refl world after was_applied.1 cluster-RetryStops after.cluster.requested
      (record after.cluster { requested = written }) was_applied.0 refl refl observed req now
      (λ id. finished_job) (λ id. []) refl
      (subst (All (IsListed telling (listing cluster now) "ns" (λ id. finished_job) (λ id. [])))
        (sym ids_left) (refl, tt))
      (subst
        (λ xs.
          any (is_active telling (listing cluster now) "ns" (λ id. finished_job) (λ id. [])) xs
          ≡ false)
        (sym ids_left) refl)
      written refl (λ action. refl)
