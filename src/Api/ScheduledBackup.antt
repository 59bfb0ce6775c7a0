-- ===== src/Api/ScheduledBackup.antt =====
-- scheduledbackup_types.go: the `ScheduledBackup` resource, and when it has to be processed.
pub mod Changes
use backup_maker_controller.Prelude.{ℕ, ◌+◌, ◌*◌, String, ◌==◌, if◌then◌else◌, ltb}
use backup_maker_controller.Prelude.{Bool, true, false, not, ◌&&◌, List, [], ◌∷◌}
use backup_maker_controller.Kube.{TypeMeta, ObjectMeta, Condition, empty_type, empty_meta}
use backup_maker_controller.Libs.{Libs}
use backup_maker_controller.Api.Specs.{ScheduledBackupSpec, empty_spec}
use backup_maker_controller.Api.ChildReference.{ChildrenReferences, JobHealthStatus}

pub record ScheduledBackupStatus : Type 0 where
  pub last_applied_spec_hash : String
  pub conditions : List Condition
  pub owned_references : ChildrenReferences
  pub children_resources_health : List JobHealthStatus
  pub healthy : Bool

pub record ScheduledBackup : Type 0 where
  pub type_meta : TypeMeta
  pub meta : ObjectMeta
  pub spec : ScheduledBackupSpec
  pub status : ScheduledBackupStatus

-- The zero value that a fetch fills.
abbrev pub empty_scheduled_backup : ScheduledBackup
empty_scheduled_backup = record {
  type_meta = empty_type;
  meta = empty_meta;
  spec = empty_spec;
  status = record {
    last_applied_spec_hash = "";
    conditions = [];
    owned_references = [];
    children_resources_health = [];
    healthy = false;
  };
}

unfoldable pub calculate_hash : Libs → ScheduledBackupSpec → String
calculate_hash L spec = L.sha256_hex (L.marshal_spec spec)

unfoldable pub has_spec_changed : Libs → ScheduledBackup → Bool
unfolding calculate_hash
has_spec_changed L sb = not (calculate_hash L sb.spec == sb.status.last_applied_spec_hash)

-- Nanoseconds in a second.
abbrev pub second : ℕ
second = 1000000000

-- `timeDiff < 60 && condition.Status == "Unknown"`. A time in the future gives a negative difference.
abbrev is_recent_unknown : ℕ → Condition → Bool
is_recent_unknown now c = ltb now (c.last_transition_time + 60 * second) && c.status == "Unknown"

scan_conditions : ℕ → List Condition → Bool
scan_conditions now [] = false
scan_conditions now (c ∷ cs) =
    let rest = scan_conditions now cs in if is_recent_unknown now c then true else rest

-- `now` is the reading of the clock.
unfoldable pub is_being_reconciled_already : ℕ → ScheduledBackup → Bool
unfolding scan_conditions
is_being_reconciled_already now sb = scan_conditions now sb.status.conditions

-- The guard of the reconciler: the specification changed, and nobody works on it.
unfoldable pub needs_processing : Libs → ℕ → ScheduledBackup → Bool
unfolding has_spec_changed is_being_reconciled_already
needs_processing L now sb = has_spec_changed L sb && not (is_being_reconciled_already now sb)
