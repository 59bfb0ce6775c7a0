-- ===== src/Client/Listers.antt =====
-- listers/riotkit/v1alpha1: the reads of an informer's index. The index is not part of the repository: it
-- is the record `Indexer`. The three generated files differ in the resource and its type only.
pub mod Scope
use backup_maker_controller.Prelude.{
  String, ◌<>◌, Bool, true, false, Option, none, some, List, Err, Fallible, gives, fails,
}
use backup_maker_controller.Api.ScheduledBackup.{ScheduledBackup}
use backup_maker_controller.Api.RequestedBackupAction.{RequestedBackupAction}
use backup_maker_controller.Api.Template.{ClusterBackupProcedureTemplate}

-- `cache.Indexer`, with the two functions of client-go that list it by a selector.
pub record Indexer (O : Type 0) : Type 1 where
  pub Selector : Type 0
  pub get_by_key : String → Fallible (Option O)
  pub list_all : Selector → List O × Option Err
  pub list_all_by_namespace : String → Selector → List O × Option Err

-- `errors.NewNotFound(v1alpha1.Resource(resource), name)`
abbrev pub NotFound : Type 0
NotFound = String → String → Err

module _ {O : Type 0} (I : Indexer O) where
  pub record NamespaceLister : Type 0 where
    pub list : I.Selector → List O × Option Err
    pub get : String → Fallible O

  pub record Lister : Type 0 where
    pub list : I.Selector → List O × Option Err
    pub in_namespace : String → NamespaceLister

  found_or_missing : NotFound → String → String → Fallible (Option O) → Fallible O
  found_or_missing not_found resource name (fails e) = fails e
  found_or_missing not_found resource name (gives none) = fails (not_found resource name)
  found_or_missing not_found resource name (gives (some item)) = gives item

  unfoldable pub namespace_lister : NotFound → String → String → NamespaceLister
  unfolding found_or_missing
  namespace_lister not_found resource namespace = record {
    list = I.list_all_by_namespace namespace;
    get = λ name.
        found_or_missing not_found resource name (I.get_by_key (namespace <> ("/" <> name)));
  }

  unfoldable pub lister : NotFound → String → Lister
  unfolding namespace_lister
  lister not_found resource = record {
    list = I.list_all;
    in_namespace = namespace_lister not_found resource;
  }

unfoldable pub scheduled_backup_lister : (I : Indexer ScheduledBackup) → NotFound → Lister I
unfolding lister
scheduled_backup_lister I not_found = lister I not_found "scheduledbackup"

unfoldable pub requested_backup_action_lister :
    (I : Indexer RequestedBackupAction) → NotFound → Lister I
unfolding lister
requested_backup_action_lister I not_found = lister I not_found "requestedbackupaction"

unfoldable pub cluster_backup_procedure_template_lister :
    (I : Indexer ClusterBackupProcedureTemplate) → NotFound → Lister I
unfolding lister
cluster_backup_procedure_template_lister I not_found =
    lister I not_found "clusterbackupproceduretemplate"
