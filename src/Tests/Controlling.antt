-- ===== src/Tests/Controlling.antt =====
-- Rounds of the reconciler of actions.
use backup_maker_controller.Prelude.{
  ◌<>◌, ◌≡◌, refl, true, false, some, [], Err, new, wrap, ok, err, panic, assign, split, trim,
  remove_first, lookup, read, has_prefix,
}
use backup_maker_controller.Kube.{meta_of}
use backup_maker_controller.Api.ChildReference.{append_job_id_to, add_owned_object}
use backup_maker_controller.Api.RequestedBackupAction.{RequestedBackupAction}
use backup_maker_controller.Api.Template.{
  provides_script, get_backup_script, get_image, get_name, get_restore_script,
}
use backup_maker_controller.Domain.Aggregate.{
  RequestedBackupActionAggregate, Renderable, scheduled_one, requested_one, mark_as_processed,
  was_already_processed, should_render_dependent_objects_for_all_operation_types, get_template,
  get_backup_aggregate, get_operation, set_var, get_scheduled_backup,
  get_object_for_owner_reference, add_owned, accepted_resource_types,
  new_requested_backup_action_aggregate,
}
use backup_maker_controller.Domain.ResourceTypes.{
  new_resource_types_filter_for_requested_backup_action,
}
use backup_maker_controller.Gpg.{or_made}
use backup_maker_controller.Factory.Hydrate.{
  fetch_scheduled_backup, fetch_requested_backup_action, fetch_secret, hydrate_gpg_secret,
}
use backup_maker_controller.Factory.Aggregates.{
  create_requested_backup_action_aggregate, create_scheduled_backup_aggregate, hydrate_all,
  hydrate_template, hydrate_access_token, hydrate_vars_secret, add_gpg_key,
}
use backup_maker_controller.Factory.Fetching.{fetched, not_fetched, fetch_rba_aggregate}
use backup_maker_controller.Bmg.State.{Context}
use backup_maker_controller.Bmg.Definition.{
  write_definition, merged_vars, is_skipped, contains, var_sources,
}
use backup_maker_controller.Bmg.Manifests.{parse_rendered_manifests, wanted}
use backup_maker_controller.Bmg.Render.{
  write_template, write_gpg_key, script_for, render_kubernetes_resources_for,
  render_kubernetes_resources_for_operation,
}
use backup_maker_controller.Bmg.Apply.{apply_objects, prepare_all, apply_each, create_or_update}
use backup_maker_controller.Controllers.{World, enter}
use backup_maker_controller.Controllers.RequestedBackupAction.{updated_action, reconcile_aggregate}
use backup_maker_controller.Controllers.RequestedBackupAction.Once.{
  applied, not_applied, failed_action_is_retried,
}
use backup_maker_controller.Tests.Samples.{
  libs, crypto, cluster, cluster-RetryStops, Server, server, workspace, disk, req, sample_action,
}
use backup_maker_controller.Tests.Rendering.{action_aggregate}

abbrev pub world : World cluster workspace
world = record { cluster = server; disk = disk; events = [] }

-- The aggregate of an action, behind the interface.
abbrev action_in : Renderable → RequestedBackupActionAggregate
action_in (requested_one a) = a
action_in (scheduled_one sb) = record action_aggregate { scheduled = sb }

abbrev pub after : Context cluster workspace
after = (apply_objects libs cluster workspace (enter (requested_one action_aggregate) world)).1

abbrev pub applied_one : RequestedBackupActionAggregate
applied_one = action_in after.backup

abbrev pub written : RequestedBackupAction
written = updated_action libs (mark_as_processed applied_one).action applied after.cluster.requested

pub applied_to :
    (apply_objects libs cluster workspace (enter (requested_one action_aggregate) world)
      ≡ (ok tt, after))
    × (after.backup ≡ requested_one applied_one)
unfolding apply_objects render_kubernetes_resources_for
    should_render_dependent_objects_for_all_operation_types
    render_kubernetes_resources_for_operation get_template write_template provides_script
    write_gpg_key get_backup_aggregate get_operation write_definition merged_vars set_var assign
    is_skipped parse_rendered_manifests split trim remove_first add_owned_object append_job_id_to
    get_backup_script get_image get_name get_restore_script apply_each create_or_update prepare_all
    contains var_sources wanted script_for accepted_resource_types add_owned
    get_object_for_owner_reference get_scheduled_backup
    new_resource_types_filter_for_requested_backup_action or_made meta_of lookup read has_prefix
applied_to = (refl, refl)

-- A generator that writes nothing.
abbrev empty_world : World cluster workspace
empty_world = record world { disk = record disk { manifest = "" } }

abbrev nothing_rendered : Err
nothing_rendered = new (
    "no objects rendered, no objects to apply. Please check your template - it did not render any of those objects: "
    <> "kinds")

abbrev left : Context cluster workspace
left = (apply_objects libs cluster workspace (enter (requested_one action_aggregate) empty_world)).1

abbrev left_one : RequestedBackupActionAggregate
left_one = action_in left.backup

failed_to_apply :
    (apply_objects libs cluster workspace (enter (requested_one action_aggregate) empty_world)
      ≡ (err nothing_rendered, left))
    × (left.backup ≡ requested_one left_one)
unfolding apply_objects render_kubernetes_resources_for
    should_render_dependent_objects_for_all_operation_types
    render_kubernetes_resources_for_operation get_template write_template provides_script
    write_gpg_key get_backup_aggregate get_operation write_definition merged_vars set_var assign
    is_skipped parse_rendered_manifests split trim remove_first get_backup_script get_image get_name
    get_restore_script apply_each prepare_all contains var_sources wanted script_for
    accepted_resource_types get_scheduled_backup
    new_resource_types_filter_for_requested_backup_action or_made lookup read has_prefix
failed_to_apply = (refl, refl)

abbrev unwritten : RequestedBackupAction
unwritten =
    updated_action libs left_one.action (not_applied libs nothing_rendered) left.cluster.requested

-- The aggregate of a later round, on a disk with the output of the generator.
abbrev retried : RequestedBackupActionAggregate
retried = record action_aggregate { action = unwritten }

failed_action_is_retried_example :
    let (r, w) = reconcile_aggregate libs cluster action_aggregate empty_world in
    (r
      ≡ ok (record {
        result = record { requeue_after = 30 };
        error = some (wrap nothing_rendered "cannot ApplyObjects()");
      }))
    × (w.cluster ≡ record left.cluster { requested = unwritten })
    × (unwritten.status.healthy ≡ false)
    × (unwritten.status.processed ≡ false)
    × ((reconcile_aggregate libs cluster retried world).1.disk
        ≡ (apply_objects libs cluster workspace (enter (requested_one retried) world)).1.disk)
unfolding was_already_processed
failed_action_is_retried_example =
    failed_action_is_retried libs cluster workspace action_aggregate left_one refl empty_world left
      failed_to_apply.1 cluster-RetryStops nothing_rendered left.cluster.requested
      (record left.cluster { requested = unwritten }) failed_to_apply.0 refl refl retried world refl

-- A server whose action was processed.
abbrev pub done_server : Server
done_server = record server {
  requested = record sample_action { status = record sample_action.status { processed = true } };
}

abbrev pub done_world : World cluster workspace
done_world = record world { cluster = done_server }

abbrev done_one : RequestedBackupActionAggregate
done_one = elim (fetch_rba_aggregate libs crypto cluster req done_server).0 [
  | ok f ↦ elim f [ fetched a ↦ a | not_fetched result e ↦ action_aggregate ]
  | err e ↦ action_aggregate
  | panic ↦ action_aggregate
]

fetched_done :
    (fetch_rba_aggregate libs crypto cluster req done_server ≡ (ok (fetched done_one), done_server))
    × (done_one.action.status.processed ≡ true)
unfolding fetch_rba_aggregate fetch_scheduled_backup fetch_requested_backup_action
    create_requested_backup_action_aggregate create_scheduled_backup_aggregate hydrate_all
    hydrate_gpg_secret hydrate_template hydrate_access_token hydrate_vars_secret fetch_secret
    add_gpg_key new_requested_backup_action_aggregate
fetched_done = (refl, refl)
