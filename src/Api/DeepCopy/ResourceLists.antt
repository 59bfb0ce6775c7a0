-- ===== src/Api/DeepCopy/ResourceLists.antt =====
-- The deep copies of ScheduledBackupList, RequestedBackupActionList and ClusterBackupProcedureTemplateList.
use mathlib.Core.Option
use backup_maker_controller.Prelude.{◌≡◌, Option}
use backup_maker_controller.Api.ScheduledBackup.{ScheduledBackup}
use backup_maker_controller.Api.RequestedBackupAction.{RequestedBackupAction}
use backup_maker_controller.Api.Template.{ClusterBackupProcedureTemplate}
use backup_maker_controller.Api.DeepCopy.{
  MetaV1, Store, BackupSlices, ActionSlices, TemplateSlices, ListSlices, ListStore, backup_into,
  action_into, template_into, list_into, deep_copy_object,
}
use backup_maker_controller.Api.DeepCopy.Separate.{
  IsDeep, IsSeparate, backup_at, action_at, template_at,
}
use backup_maker_controller.Api.DeepCopy.Resources.{
  backup_into-Separate, action_into-Separate, template_into-Separate,
}
use backup_maker_controller.Api.DeepCopy.Lists.{
  list_at, AllIn, MayOverwriteList, KeepsList, list_deep_copy_object-Separate,
}

-- The three lists, by their items.
pub data Listed : Type 0 where
  backups actions templates : Listed

abbrev pub Item : MetaV1 → Listed → Type 0
Item M backups = BackupSlices M
Item M actions = ActionSlices M
Item M templates = TemplateSlices M

abbrev pub Value : Listed → Type 0
Value backups = ScheduledBackup
Value actions = RequestedBackupAction
Value templates = ClusterBackupProcedureTemplate

module _ {M : MetaV1} where
  -- `DeepCopyInto` of an item.
  abbrev pub item_into : (k : Listed) → Item M k → Store M → Item M k × Store M
  item_into backups = backup_into
  item_into actions = action_into
  item_into templates = template_into

  abbrev pub item_at : (D : IsDeep M) (k : Listed) → Store M → Item M k → Value k
  item_at D backups = backup_at D
  item_at D actions = action_at D
  item_at D templates = template_at D

  item_into-Separate : (D : IsDeep M) (k : Listed) → IsSeparate D (item_into k) (item_at D k)
  item_into-Separate D backups = backup_into-Separate D
  item_into-Separate D actions = action_into-Separate D
  item_into-Separate D templates = template_into-Separate D

  -- The pointer that `DeepCopyObject` of a list of ScheduledBackups, of RequestedBackupActions or of templates
  -- returns is nil for nil, and else a copy that shares nothing with the list: where the copies of
  -- metadata and conditions share nothing with the originals, and the items of the list lie in the
  -- store, it reads as the list did when it was made, whatever is written afterwards to what there was
  -- before; and making it writes to nothing of that.
  pub resource_list-Separate :
      (D : IsDeep M) (k : Listed) (o : Option (ListSlices M)) (s later : ListStore M (Item M k))
      → AllIn D (item_into k) (item_at D k) s o
      → MayOverwriteList D
          (item_into k)
          (item_at D k)
          s
          (deep_copy_object (list_into (item_into k)) o s).1
          later
      → (Option.map
            (list_at D (item_into k) (item_at D k) later)
            (deep_copy_object (list_into (item_into k)) o s).0
          ≡ Option.map (list_at D (item_into k) (item_at D k) s) o)
        × KeepsList D
            (item_into k)
            (item_at D k)
            s
            (deep_copy_object (list_into (item_into k)) o s).1
  resource_list-Separate D k =
      list_deep_copy_object-Separate D (item_into k) (item_at D k) (item_into-Separate D k)
