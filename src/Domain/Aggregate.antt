-- ===== src/Domain/Aggregate.antt =====
-- scheduledbackup.go, requestedbackupaction.go, renderable.go and constants.go. The Go aggregates hold
-- pointers; an aggregate here holds the objects that they lead to.
use backup_maker_controller.Prelude.{
  String, ◌==◌, Bool, true, false, Option, List, [], ◌∷◌, Dict, assign, if◌then◌else◌,
}
use backup_maker_controller.Kube.{GroupVersionKind, TypeMeta, ObjectMeta, Secret, Unstructured}
use backup_maker_controller.Libs.{Libs}
use backup_maker_controller.Api.ChildReference.{ChildrenReferences, add_owned_object}
use backup_maker_controller.Api.ScheduledBackup.{ScheduledBackup}
use backup_maker_controller.Api.RequestedBackupAction.{RequestedBackupAction}
use backup_maker_controller.Api.Template.{Template}

-- `domain.Operation` is a type of texts.
abbrev pub Operation : Type 0
Operation = String

abbrev pub download : Operation
download = "download"

abbrev pub backup : Operation
backup = "backup"

abbrev pub restore : Operation
restore = "restore"

-- none is the nil pointer.
pub record ScheduledBackupAggregate : Type 0 where
  pub scheduled_backup : ScheduledBackup
  pub template : Option Template
  pub gpg_secret : Option Secret
  pub token_secret : Option Secret
  pub vars_list_secret : Option Secret
  pub additional_vars_list : Dict String

pub record RequestedBackupActionAggregate : Type 0 where
  pub action : RequestedBackupAction
  pub scheduled : ScheduledBackupAggregate

-- The two implementations of the interface.
pub data Renderable : Type 0 where
  scheduled_one : ScheduledBackupAggregate → Renderable
  requested_one : RequestedBackupActionAggregate → Renderable

unfoldable pub mark_as_processed : RequestedBackupActionAggregate → RequestedBackupActionAggregate
mark_as_processed a = record a {
  action = record a.action { status = record a.action.status { processed = true } };
}

unfoldable pub was_already_processed : RequestedBackupActionAggregate → Bool
was_already_processed a = a.action.status.processed

unfoldable pub get_operation : Renderable → Operation
get_operation (scheduled_one sb) = sb.scheduled_backup.spec.operation
get_operation (requested_one a) = a.action.spec.action

unfoldable pub should_create_cron_job : Renderable → Bool
should_create_cron_job (scheduled_one sb) = sb.scheduled_backup.spec.cron_job.enabled
should_create_cron_job (requested_one a) = false

unfoldable pub get_backup_aggregate : Renderable → ScheduledBackupAggregate
get_backup_aggregate (scheduled_one sb) = sb
get_backup_aggregate (requested_one a) = a.scheduled

unfoldable pub get_template : Renderable → Option Template
get_template (scheduled_one sb) = sb.template
get_template (requested_one a) = a.scheduled.template

unfoldable pub get_scheduled_backup : Renderable → ScheduledBackup
get_scheduled_backup (scheduled_one sb) = sb.scheduled_backup
get_scheduled_backup (requested_one a) = a.scheduled.scheduled_backup

-- `GetTypeMeta()` and `GetObjectMeta()` of the owner.
unfoldable pub get_object_for_owner_reference : Renderable → TypeMeta × ObjectMeta
get_object_for_owner_reference (scheduled_one sb) =
    (sb.scheduled_backup.type_meta, sb.scheduled_backup.meta)
get_object_for_owner_reference (requested_one a) = (a.action.type_meta, a.action.meta)

unfoldable pub get_references_of_owned_objects : Renderable → ChildrenReferences
get_references_of_owned_objects (scheduled_one sb) = sb.scheduled_backup.status.owned_references
get_references_of_owned_objects (requested_one a) = a.action.status.owned_references

unfoldable pub should_render_dependent_objects_for_all_operation_types : Renderable → Bool
should_render_dependent_objects_for_all_operation_types (scheduled_one sb) = true
should_render_dependent_objects_for_all_operation_types (requested_one a) = false

-- The kinds that an error message lists.
unfoldable pub accepted_resource_types : Renderable → List GroupVersionKind
accepted_resource_types (scheduled_one sb) = []
accepted_resource_types (requested_one a) =
    record { group = "batch"; version = "v1"; kind = "Job" }
    ∷ record { group = ""; version = "v1"; kind = "Pod" }
    ∷ []

-- `AddOwnedObject`: the reference goes to the status of the owner itself.
unfoldable pub add_owned : Libs → Renderable → Unstructured → Renderable
add_owned L (scheduled_one sb) doc =
    let s = sb.scheduled_backup in
    scheduled_one (record sb {
      scheduled_backup = record s {
        status = record s.status {
          owned_references = add_owned_object L s.status.owned_references doc;
        };
      };
    })
add_owned L (requested_one a) doc =
    let r = a.action in
    requested_one (record a {
      action = record r {
        status = record r.status {
          owned_references = add_owned_object L r.status.owned_references doc;
        };
      };
    })

-- A write to the map of the backup aggregate, which all its copies share.
unfoldable pub set_var : String → String → Renderable → Renderable
set_var k v (scheduled_one sb) =
    scheduled_one (record sb { additional_vars_list = assign k v sb.additional_vars_list })
set_var k v (requested_one a) = requested_one (record a {
  scheduled = record a.scheduled {
    additional_vars_list = assign k v a.scheduled.additional_vars_list;
  };
})

unfoldable pub set_target_kind_type :
    String → RequestedBackupActionAggregate → RequestedBackupActionAggregate
set_target_kind_type name a = record a {
  scheduled = record a.scheduled {
    additional_vars_list = assign "HelmValues.kindType" name a.scheduled.additional_vars_list;
  };
}

unfoldable pub new_requested_backup_action_aggregate :
    Libs → RequestedBackupAction → ScheduledBackupAggregate → RequestedBackupActionAggregate
unfolding set_target_kind_type
new_requested_backup_action_aggregate L action scheduled =
    let gvk : GroupVersionKind = record {
      group = "riotkit.org";
      version = "v1alpha1";
      kind = "RequestedBackupAction";
    } in
    set_target_kind_type (if action.spec.kind_type == "" then "Job" else action.spec.kind_type)
      (record { action = record action { type_meta = L.type_meta_of gvk }; scheduled = scheduled })
