-- ===== src/Api/RequestedBackupAction.antt =====
-- requesteddbackupaction_types.go: the `RequestedBackupAction` resource.
use backup_maker_controller.Prelude.{Bool, false, List, []}
use backup_maker_controller.Kube.{TypeMeta, ObjectMeta, Condition, empty_type, empty_meta}
use backup_maker_controller.Api.Specs.{RequestedBackupActionSpec}
use backup_maker_controller.Api.ChildReference.{ChildrenReferences, JobHealthStatus}

pub record RequestedBackupActionStatus : Type 0 where
  pub processed : Bool
  pub conditions : List Condition
  pub owned_references : ChildrenReferences
  pub children_resources_health : List JobHealthStatus
  pub healthy : Bool

pub record RequestedBackupAction : Type 0 where
  pub type_meta : TypeMeta
  pub meta : ObjectMeta
  pub spec : RequestedBackupActionSpec
  pub status : RequestedBackupActionStatus

abbrev pub empty_requested_backup_action : RequestedBackupAction
empty_requested_backup_action = record {
  type_meta = empty_type;
  meta = empty_meta;
  spec = record {
    action = "";
    target_version = "";
    scheduled_backup_ref = record { name = "" };
    kind_type = "";
  };
  status = record {
    processed = false;
    conditions = [];
    owned_references = [];
    children_resources_health = [];
    healthy = false;
  };
}
