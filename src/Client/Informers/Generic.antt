-- ===== src/Client/Informers/Generic.antt =====
-- generic.go, and the informers of the three types that the factory gives access to.
use backup_maker_controller.Prelude.{
  ℕ, String, ◌==◌, ◌<>◌, ◌≡◌, ap, ◌&&◌, Bool, Option, if◌then◌else◌, Err, Fallible, gives, fails,
}
use backup_maker_controller.Client.Fake.{GroupVersionResource, resource_of}
use backup_maker_controller.Client.Informers.{Parts, SharedInformerFactory, informer_for}
use backup_maker_controller.Client.Informers.Runs.{Later, informer_for_shares}

-- `NewFiltered…Informer` of each type, with the index by namespaces: an informer of a client, a namespace, a filter
-- and a period.
pub record Constructors (T : Parts) : Type 0 where
  pub cluster_backup_procedure_template : T.Client → String → Option T.Tweak → ℕ → T.Informer
  pub requested_backup_action : T.Client → String → Option T.Tweak → ℕ → T.Informer
  pub scheduled_backup : T.Client → String → Option T.Tweak → ℕ → T.Informer

pub record GenericInformer (T : Parts) : Type 0 where
  pub resource_group : String
  pub resource : String
  pub informer : T.Informer

-- `case` compares all the fields.
unfoldable pub is_resource : GroupVersionResource → GroupVersionResource → Bool
is_resource r s = r.group == s.group && r.version == s.version && r.resource == s.resource

module _ {T : Parts} (K : Constructors T) where
  -- `f.Riotkit().V1alpha1()` holds the namespace and the filter of the factory; its informers ask the factory.
  unfoldable pub cluster_backup_procedure_templates_informer :
      SharedInformerFactory T → T.Informer × SharedInformerFactory T
  unfolding informer_for
  cluster_backup_procedure_templates_informer f =
      informer_for "*v1alpha1.ClusterBackupProcedureTemplate"
        (λ client. K.cluster_backup_procedure_template client f.namespace f.tweak_list_options) f

  unfoldable pub requested_backup_actions_informer :
      SharedInformerFactory T → T.Informer × SharedInformerFactory T
  unfolding informer_for
  requested_backup_actions_informer f =
      informer_for "*v1alpha1.RequestedBackupAction"
        (λ client. K.requested_backup_action client f.namespace f.tweak_list_options) f

  unfoldable pub scheduled_backups_informer :
      SharedInformerFactory T → T.Informer × SharedInformerFactory T
  unfolding informer_for
  scheduled_backups_informer f =
      informer_for "*v1alpha1.ScheduledBackup"
        (λ client. K.scheduled_backup client f.namespace f.tweak_list_options) f

  generic :
      GroupVersionResource
      → T.Informer × SharedInformerFactory T
      → Fallible (GenericInformer T) × SharedInformerFactory T
  generic r (informer, f) =
      (gives (record { resource_group = r.group; resource = r.resource; informer = informer }), f)

  -- `text` is what `%v` prints.
  unfoldable pub for_resource :
      (GroupVersionResource → String)
      → GroupVersionResource
      → SharedInformerFactory T
      → Fallible (GenericInformer T) × SharedInformerFactory T
  unfolding generic is_resource cluster_backup_procedure_templates_informer
      requested_backup_actions_informer scheduled_backups_informer
  for_resource text r f =
      if is_resource r (resource_of "clusterbackupproceduretemplates")
      then generic r (cluster_backup_procedure_templates_informer f)
      else if is_resource r (resource_of "requestedbackupactions")
      then generic r (requested_backup_actions_informer f)
      else if is_resource r (resource_of "scheduledbackups")
      then generic r (scheduled_backups_informer f)
      else (fails (Err.new ("no informer found for " <> text r)), f)

  -- The access by the resource gives the informer that the access by the type gave, whatever was asked for
  -- and started in between, and changes nothing.
  pub for_resource_shares :
      (text : GroupVersionResource → String) (f : SharedInformerFactory T)
      {g : SharedInformerFactory T}
      → Later (scheduled_backups_informer f).1 g
      → for_resource text (resource_of "scheduledbackups") g ≡ (
        gives (record {
          resource_group = "riotkit.org";
          resource = "scheduledbackups";
          informer = (scheduled_backups_informer f).0;
        }),
        g,
      )
  unfolding for_resource scheduled_backups_informer generic is_resource
  for_resource_shares text f {g = g} later = ap (generic (resource_of "scheduledbackups")) (
      informer_for_shares "*v1alpha1.ScheduledBackup"
        (λ client. K.scheduled_backup client f.namespace f.tweak_list_options)
        (λ client. K.scheduled_backup client g.namespace g.tweak_list_options) f later)
