-- ===== src/Client/Watching.antt =====
-- informers/externalversions/riotkit/v1alpha1: the functions by which an informer lists and watches.
use backup_maker_controller.Prelude.{
  String, ◌≡◌, refl, true, Option, none, some, List, [], Err, Fallible,
}
use backup_maker_controller.Api.ScheduledBackup.{ScheduledBackup}
use backup_maker_controller.Api.RequestedBackupAction.{RequestedBackupAction}
use backup_maker_controller.Api.Template.{ClusterBackupProcedureTemplate}
use backup_maker_controller.Client.Rest.{ListOptions, RestTypes, Rest}
use backup_maker_controller.Client.Typed.{
  TypedInterface, typed_client, list_request, watch_request, scheduled_backups,
  requested_backup_actions, cluster_backup_procedure_templates,
}

-- cache.ListWatch
pub record ListWatch (T : RestTypes) (S O : Type 0) : Type 0 where
  pub list_func : ListOptions → S → List O × Option Err
  pub watch_func : ListOptions → S → Fallible T.Watch

-- `if tweakListOptions != nil { tweakListOptions(&options) }`
unfoldable pub tweaked : Option (ListOptions → ListOptions) → ListOptions → ListOptions
tweaked none options = options
tweaked (some tweak) options = tweak options

module _ {T : RestTypes} {S : Type 0} where
  unfoldable pub new_list_watch :
      {O : Type 0} → TypedInterface T S O → Option (ListOptions → ListOptions) → ListWatch T S O
  unfolding tweaked
  new_list_watch client tweak = record {
    list_func = λ options. client.list (tweaked tweak options);
    watch_func = λ options. client.watch (tweaked tweak options);
  }

  unfoldable pub new_filtered_scheduled_backup_informer :
      Rest T S ScheduledBackup
      → String
      → Option (ListOptions → ListOptions)
      → ListWatch T S ScheduledBackup
  unfolding new_list_watch scheduled_backups
  new_filtered_scheduled_backup_informer R namespace =
      new_list_watch (scheduled_backups R namespace)

  unfoldable pub new_filtered_requested_backup_action_informer :
      Rest T S RequestedBackupAction
      → String
      → Option (ListOptions → ListOptions)
      → ListWatch T S RequestedBackupAction
  unfolding new_list_watch requested_backup_actions
  new_filtered_requested_backup_action_informer R namespace =
      new_list_watch (requested_backup_actions R namespace)

  unfoldable pub new_filtered_cluster_backup_procedure_template_informer :
      Rest T S ClusterBackupProcedureTemplate
      → String
      → Option (ListOptions → ListOptions)
      → ListWatch T S ClusterBackupProcedureTemplate
  unfolding new_list_watch cluster_backup_procedure_templates
  new_filtered_cluster_backup_procedure_template_informer R namespace =
      new_list_watch (cluster_backup_procedure_templates R namespace)

  -- The informer of backups watches what it lists: with every filter, its list and its watch are sent for
  -- the same namespace, resource, parameters and timeout, and differ in the one parameter that turns a
  -- list into a watch.
  pub informer_watches_what_it_lists :
      (R : Rest T S ScheduledBackup) (namespace : String)
      (tweak : Option (ListOptions → ListOptions)) (options : ListOptions) (s : S)
      → let informer = new_filtered_scheduled_backup_informer R namespace tweak in
        let opts = tweaked tweak options in
        let sent = list_request T ScheduledBackup namespace "scheduledbackups" in
        (informer.list_func options s ≡ R.read_list (sent opts) [] s)
        × (informer.watch_func options s ≡ R.start_watch (sent (record opts { watch = true })) s)
  unfolding new_filtered_scheduled_backup_informer new_list_watch tweaked scheduled_backups
      typed_client list_request watch_request
  informer_watches_what_it_lists R namespace tweak options s = (refl, refl)
