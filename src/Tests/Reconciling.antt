-- ===== src/Tests/Reconciling.antt =====
-- Rounds of the ScheduledBackup reconciler.
use backup_maker_controller.Prelude.{
  ◌≡◌, refl, none, [], ok, assign, split, trim, remove_first, lookup, read, has_prefix, true, ◌∷◌,
  ◌<◌,
}
use backup_maker_controller.Kube.{Job, empty_meta, meta_of}
use backup_maker_controller.Api.ChildReference.{append_job_id_to, add_owned_object}
use backup_maker_controller.Api.ScheduledBackup.{ScheduledBackup}
use backup_maker_controller.Api.Template.{
  provides_script, get_backup_script, get_image, get_name, get_restore_script,
}
use backup_maker_controller.Domain.Aggregate.{
  ScheduledBackupAggregate, scheduled_one, should_render_dependent_objects_for_all_operation_types,
  get_template, get_backup_aggregate, get_operation, set_var, get_scheduled_backup,
  get_object_for_owner_reference, add_owned, accepted_resource_types, should_create_cron_job,
}
use backup_maker_controller.Domain.ResourceTypes.{new_resource_types_filter_for_scheduled_backup}
use backup_maker_controller.Gpg.{or_made}
use backup_maker_controller.Factory.Hydrate.{fetch_scheduled_backup}
use backup_maker_controller.Factory.Aggregates.{Created}
use backup_maker_controller.Bmg.State.{Context}
use backup_maker_controller.Bmg.Definition.{
  write_definition, merged_vars, is_skipped, contains, var_sources,
}
use backup_maker_controller.Bmg.Manifests.{parse_rendered_manifests, wanted}
use backup_maker_controller.Bmg.Render.{
  write_template, write_gpg_key, script_for, render_kubernetes_resources_for,
  render_kubernetes_resources_for_operation,
}
use backup_maker_controller.Bmg.Apply.{apply_objects, prepare_all, apply_each, create_or_update}
use backup_maker_controller.Controllers.{finished, World, enter, completed_condition}
use backup_maker_controller.Controllers.ScheduledBackup.{
  updated_object, update_attempt, update_object, reconcile_aggregate, reconcile_body, reconcile,
}
use backup_maker_controller.Locking.InMemory.{in_memory_locker}
use backup_maker_controller.Bmg.Apply.Tracking.{owned}
use backup_maker_controller.Controllers.Health.Report.{nothing_seen}
use backup_maker_controller.Controllers.Observers.{reported_backup, observe_backup}
use backup_maker_controller.Controllers.ScheduledBackup.Unwatched.{applied_backup_is_unwatched}
use backup_maker_controller.Controllers.ScheduledBackup.Settled.{applied_backup_rests}
use backup_maker_controller.Controllers.ScheduledBackup.Outcomes.{
  IsPrompt, IsReply, reconcile-IsPrompt,
}
use backup_maker_controller.Controllers.ScheduledBackup.Applied.{working, succeeded}
use backup_maker_controller.Tests.Samples.{
  libs, crypto, cluster, cluster-RetryStops, Server, server, workspace, disk, req, sample_backup,
}
use backup_maker_controller.Tests.Rendering.{hydrated}

abbrev world : World cluster workspace
world = record { cluster = server; disk = disk; events = [] }

abbrev created : Created ScheduledBackupAggregate
created = record { aggregate = hydrated; controller_action = none; error = none }

-- The world in which the objects are applied: its backup is marked as worked on.
abbrev started : World cluster workspace → Context cluster workspace
started w = enter (scheduled_one hydrated) (update_object libs cluster sample_backup working w)

abbrev after : Context cluster workspace
after = (apply_objects libs cluster workspace (started world)).1

abbrev applied_backup : ScheduledBackup
applied_backup = get_scheduled_backup after.backup

abbrev written : ScheduledBackup
written = updated_object libs applied_backup succeeded after.cluster.scheduled

applied_to :
    (apply_objects libs cluster workspace (started world) ≡ (ok tt, after))
    × (after.cluster.scheduled.spec ≡ applied_backup.spec)
unfolding apply_objects render_kubernetes_resources_for
    should_render_dependent_objects_for_all_operation_types
    render_kubernetes_resources_for_operation get_template write_template provides_script
    write_gpg_key get_backup_aggregate get_operation write_definition merged_vars set_var assign
    is_skipped parse_rendered_manifests split trim remove_first add_owned_object append_job_id_to
    get_backup_script get_image get_name get_restore_script apply_each create_or_update prepare_all
    contains var_sources wanted script_for accepted_resource_types add_owned
    get_object_for_owner_reference get_scheduled_backup should_create_cron_job
    new_resource_types_filter_for_scheduled_backup or_made meta_of lookup read has_prefix
    update_object update_attempt updated_object completed_condition
applied_to = (refl, refl)

unowned : after.cluster.scheduled.status.owned_references ≡ []
unfolding apply_objects render_kubernetes_resources_for
    should_render_dependent_objects_for_all_operation_types
    render_kubernetes_resources_for_operation get_template write_template provides_script
    write_gpg_key get_backup_aggregate get_operation write_definition merged_vars set_var assign
    is_skipped parse_rendered_manifests split trim remove_first add_owned_object append_job_id_to
    get_backup_script get_image get_name get_restore_script apply_each create_or_update prepare_all
    contains var_sources wanted script_for accepted_resource_types add_owned
    get_object_for_owner_reference get_scheduled_backup should_create_cron_job
    new_resource_types_filter_for_scheduled_backup or_made meta_of lookup read has_prefix
    update_object update_attempt updated_object completed_condition
unowned = refl

applied_backup_rests_example :
    let w = (reconcile_aggregate libs cluster sample_backup created world).1 in
    reconcile_body libs crypto cluster 0 req w ≡ (ok finished, w)
unfolding fetch_scheduled_backup
applied_backup_rests_example =
    applied_backup_rests libs crypto cluster workspace sample_backup created refl world
      cluster-RetryStops after after.cluster.scheduled
      (record after.cluster { scheduled = written }) 0 req applied_to.0 refl refl applied_to.1 refl

reconcile-IsPrompt_example :
    IsReply libs
      ((in_memory_locker libs).obtain req []).0
      (IsPrompt (fetch_scheduled_backup libs crypto cluster req server).1)
      (reconcile libs crypto cluster (in_memory_locker libs) 0 req (world, [])).0
reconcile-IsPrompt_example =
    reconcile-IsPrompt libs crypto cluster (in_memory_locker libs) 0 req world []

-- A failed job that the cluster has when the observer comes.
abbrev failed_job : Job
failed_job = record {
  type_meta = record { api_version = "batch/v1"; kind = "Job" };
  meta = empty_meta;
  active = 0;
  failed = 1;
}

abbrev later : Server
later = record after.cluster { scheduled = written; jobs = failed_job ∷ [] }

abbrev observed : ScheduledBackupAggregate
observed = record hydrated { scheduled_backup = written }

abbrev reported : ScheduledBackup
reported = reported_backup written nothing_seen written

applied_backup_is_unwatched_example :
    let (r, w) = reconcile_aggregate libs cluster sample_backup created world in
    (r ≡ ok finished)
    × (w.cluster ≡ record after.cluster { scheduled = written })
    × (owned (scheduled_one hydrated) < owned after.backup)
    × (observe_backup libs cluster req observed later
        ≡ (ok finished, record later { scheduled = reported }))
    × (reported.status.healthy ≡ true)
    × (reported.status.children_resources_health ≡ [])
applied_backup_is_unwatched_example =
    applied_backup_is_unwatched libs cluster workspace sample_backup created refl world
      cluster-RetryStops after after.cluster.scheduled
      (record after.cluster { scheduled = written }) applied_to.0 refl refl unowned observed req
      later refl written refl (record later { scheduled = reported }) refl
