-- ===== src/Tests/Rendering.antt =====
-- Objects that are rendered and applied.
use backup_maker_controller.Prelude.{
  String, ◌==◌, ◌≡◌, refl, true, false, some, List, [], ◌∷◌, length, all, All, assign, split, trim,
  remove_first, lookup, read, has_prefix,
}
use backup_maker_controller.Kube.{Unstructured, mapping, empty_meta}
use backup_maker_controller.Api.Template.{
  internal, provides_script, get_backup_script, get_image, get_name, get_restore_script,
}
use backup_maker_controller.Domain.Aggregate.{
  ScheduledBackupAggregate, RequestedBackupActionAggregate, requested_one, backup,
  should_render_dependent_objects_for_all_operation_types, get_template, get_backup_aggregate,
  get_operation, set_var, get_scheduled_backup, get_object_for_owner_reference,
}
use backup_maker_controller.Domain.ResourceTypes.{
  job, new_resource_types_filter_for_requested_backup_action,
}
use backup_maker_controller.Factory.Aggregates.{fresh_aggregate}
use backup_maker_controller.Bmg.State.{Context}
use backup_maker_controller.Gpg.{or_made}
use backup_maker_controller.Bmg.Definition.{
  write_definition, merged_vars, is_skipped, contains, var_sources,
}
use backup_maker_controller.Bmg.Manifests.{parse_rendered_manifests, wanted}
use backup_maker_controller.Bmg.Manifests.Pipeline.{
  keep_result, decode_all, documents, parse_rendered_manifests-eq,
}
use backup_maker_controller.Bmg.Render.{
  write_template, write_gpg_key, script_for, render_kubernetes_resources_for,
  render_kubernetes_resources_for_operation,
}
use backup_maker_controller.Bmg.Render.Kinds.{render_for_action-jobs}
use backup_maker_controller.Bmg.Render.Cleanup.{render_cleans_up}
use backup_maker_controller.Bmg.Apply.{prepare_all}
use backup_maker_controller.Bmg.Apply.Owners.{IsOwned, prepare_all-AreOwned}
use backup_maker_controller.Tests.Samples.{
  libs, cluster, server, workspace, workspace-IsTidy, disk, sample_backup, sample_action,
  sample_secret, named,
}

abbrev pub hydrated : ScheduledBackupAggregate
hydrated = record (fresh_aggregate sample_backup) {
  template = some (internal (record { name = "pg" }));
  gpg_secret = some sample_secret;
}

abbrev pub action_aggregate : RequestedBackupActionAggregate
action_aggregate = record { action = sample_action; scheduled = hydrated }

abbrev pub context : Context cluster workspace
context = record {
  cluster = server;
  disk = disk;
  events = [];
  backup = requested_one action_aggregate;
}

abbrev pub job_named : String → Unstructured
job_named name = record {
  type_meta = record { api_version = "batch/v1"; kind = "Job" };
  metadata = mapping (named name);
  body = name;
}

parse_rendered_manifests-eq_example :
    parse_rendered_manifests libs workspace.decode disk.manifest (job ∷ [])
    ≡ keep_result
        (wanted libs workspace.decode (job ∷ []))
        (decode_all libs workspace.decode (documents disk.manifest))
parse_rendered_manifests-eq_example =
    parse_rendered_manifests-eq libs workspace.decode disk.manifest (job ∷ [])

-- The job of the two documents.
abbrev rendered : List Unstructured
rendered =
    record {
      type_meta = record { api_version = "batch/v1"; kind = "Job" };
      metadata = mapping (record empty_meta { name = "Job a" });
      body = "Job a";
    }
    ∷ []

render_for_action-jobs_example :
    all
      (λ (obj : Unstructured).
        libs.gvk_string (libs.group_version_kind obj.type_meta) == libs.gvk_string job)
      rendered
    ≡ true
unfolding render_kubernetes_resources_for should_render_dependent_objects_for_all_operation_types
    render_kubernetes_resources_for_operation get_template write_template provides_script
    write_gpg_key get_backup_aggregate get_operation write_definition merged_vars set_var assign
    is_skipped parse_rendered_manifests split trim remove_first get_backup_script get_image get_name
    get_restore_script contains var_sources wanted script_for get_scheduled_backup
    new_resource_types_filter_for_requested_backup_action or_made lookup read has_prefix
render_for_action-jobs_example =
    render_for_action-jobs libs workspace action_aggregate context rendered refl refl

render_cleans_up_example :
    let after =
      (render_kubernetes_resources_for_operation libs {C = cluster} workspace backup
        new_resource_types_filter_for_requested_backup_action context).1.disk in
    (workspace-IsTidy.present "/tmp/bmg1" after ≡ false)
    × (workspace.getwd after ≡ workspace.getwd context.disk)
render_cleans_up_example =
    render_cleans_up libs {C = cluster} workspace workspace-IsTidy backup
      new_resource_types_filter_for_requested_backup_action context "/tmp/bmg1"
      (record disk { temporary = true }) refl

abbrev owned_job : String → Unstructured
owned_job name = record (job_named name) {
  metadata = mapping (record (named name) {
    owner_references = record { api_version = ""; kind = ""; name = "db"; uid = "" } ∷ [];
  });
}

abbrev prepared : List Unstructured
prepared = owned_job "a" ∷ owned_job "b" ∷ []

prepare_all-AreOwned_example : All (IsOwned context.backup) prepared × (length prepared ≡ 2)
unfolding prepare_all get_object_for_owner_reference get_scheduled_backup
prepare_all-AreOwned_example =
    prepare_all-AreOwned context.backup (job_named "a" ∷ job_named "b" ∷ []) prepared refl
