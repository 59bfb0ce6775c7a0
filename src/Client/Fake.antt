-- ===== src/Client/Fake.antt =====
-- fake/fake_*.go and fake_riotkit_client.go: the client that stands in for the typed client in tests. Each
-- method makes an action and invokes it; the actions' constructors and `testing.Fake`, which records an
-- action and asks the reactors, are of client-go.
pub mod Clientset
use backup_maker_controller.Prelude.{
  String, Bool, Option, none, some, List, [], ◌∷◌, Dict, Err, Fallible, if◌then◌else◌,
}
use backup_maker_controller.Kube.{GroupVersionKind}
use backup_maker_controller.Api.ScheduledBackup.{ScheduledBackup, empty_scheduled_backup}
use backup_maker_controller.Api.RequestedBackupAction.{
  RequestedBackupAction, empty_requested_backup_action,
}
use backup_maker_controller.Api.Template.{ClusterBackupProcedureTemplate, empty_template}
use backup_maker_controller.Client.Rest.{ListOptions, RestTypes}

pub record GroupVersionResource : Type 0 where
  pub group : String
  pub version : String
  pub resource : String

pub record ObjectList (Meta O : Type 0) : Type 0 where
  pub list_meta : Meta
  pub items : List O

-- The actions, by their constructors.
pub data Action (T : RestTypes) (O : Type 0) : Type 0 where
  new_get_action : GroupVersionResource → String → String → Action T O
  new_list_action : GroupVersionResource → GroupVersionKind → String → ListOptions → Action T O
  new_watch_action : GroupVersionResource → String → ListOptions → Action T O
  new_create_action : GroupVersionResource → String → O → Action T O
  new_update_action : GroupVersionResource → String → O → Action T O
  new_update_subresource_action : GroupVersionResource → String → String → O → Action T O
  new_delete_action : GroupVersionResource → String → String → Action T O
  new_delete_collection_action : GroupVersionResource → String → ListOptions → Action T O
  new_patch_subresource_action :
      GroupVersionResource → String → String → T.PatchType → String → List String → Action T O

-- `testing.Fake` over its state, and labels; the returned object may be nil.
pub record Fake (T : RestTypes) (S O : Type 0) : Type 1 where
  pub ListMeta : Type 0
  pub Selector : Type 0
  pub empty_list_meta : ListMeta
  pub invokes : Action T O → O → S → (Option O × Option Err) × S
  pub invokes_list :
      Action T O → ObjectList ListMeta O → S → (Option (ObjectList ListMeta O) × Option Err) × S
  pub invokes_watch : Action T O → S → Fallible T.Watch × S
  -- The label selector of the options, if they have one.
  pub extract_label : ListOptions → Option Selector
  pub everything : Selector
  pub matches : Selector → Dict String → Bool

-- The methods of a fake client.
pub record FakeInterface (T : RestTypes) (S O M : Type 0) : Type 0 where
  pub get : String → T.GetOptions → S → (Option O × Option Err) × S
  pub list : ListOptions → S → (Option (ObjectList M O) × Option Err) × S
  pub watch : ListOptions → S → Fallible T.Watch × S
  pub create : O → T.CreateOptions → S → (Option O × Option Err) × S
  pub update : O → T.UpdateOptions → S → (Option O × Option Err) × S
  pub update_status : O → T.UpdateOptions → S → (Option O × Option Err) × S
  pub delete : String → T.DeleteOptions → S → Option Err × S
  pub delete_collection : T.DeleteOptions → ListOptions → S → Option Err × S
  pub patch :
      String → T.PatchType → String → T.PatchOptions → List String → S → (Option O × Option Err) × S

-- `if obj == nil { return nil, err }`, and else the object with the error.
object_or_nil : {A : Type 0} → Option A × Option Err → Option A × Option Err
object_or_nil (none, e) = (none, e)
object_or_nil (some obj, e) = (some obj, e)

module _ {T : RestTypes} {S O : Type 0} (F : Fake T S O) (labels_of : O → Dict String) where
  abbrev label_or_everything : Option F.Selector → F.Selector
  label_or_everything none = F.everything
  label_or_everything (some label) = label

  -- The loop over the items.
  matching : F.Selector → List O → List O
  matching label [] = []
  matching label (item ∷ items) =
      let rest = matching label items in
      if F.matches label (labels_of item) then item ∷ rest else rest

  filtered :
      ListOptions
      → Option (ObjectList F.ListMeta O) × Option Err
      → Option (ObjectList F.ListMeta O) × Option Err
  unfolding matching
  filtered opts (none, e) = (none, e)
  filtered opts (some obj, e) = (
    some (record {
      list_meta = obj.list_meta;
      items = matching (label_or_everything (F.extract_label opts)) obj.items;
    }),
    e,
  )

  unfoldable pub fake_client :
      O → GroupVersionResource → GroupVersionKind → String → FakeInterface T S O F.ListMeta
  unfolding object_or_nil filtered
  fake_client empty gvr gvk ns = record {
    get = λ name options s.
        let (r, t) = F.invokes (new_get_action gvr ns name) empty s in (object_or_nil r, t);
    list = λ opts s.
        let (r, t) =
          F.invokes_list (new_list_action gvr gvk ns opts)
            (record { list_meta = F.empty_list_meta; items = [] }) s in
        (filtered opts r, t);
    watch = λ opts s. F.invokes_watch (new_watch_action gvr ns opts) s;
    create = λ item opts s.
        let (r, t) = F.invokes (new_create_action gvr ns item) empty s in (object_or_nil r, t);
    update = λ item opts s.
        let (r, t) = F.invokes (new_update_action gvr ns item) empty s in (object_or_nil r, t);
    update_status = λ item opts s.
        let (r, t) = F.invokes (new_update_subresource_action gvr "status" ns item) empty s in
        (object_or_nil r, t);
    delete =
        λ name opts s. let (r, t) = F.invokes (new_delete_action gvr ns name) empty s in (r.1, t);
    delete_collection = λ opts list_opts s.
        let (r, t) =
          F.invokes_list (new_delete_collection_action gvr ns list_opts)
            (record { list_meta = F.empty_list_meta; items = [] }) s in
        (r.1, t);
    patch = λ name pt contents opts subresources s.
        let (r, t) =
          F.invokes (new_patch_subresource_action gvr ns name pt contents subresources) empty s in
        (object_or_nil r, t);
  }

abbrev pub resource_of : String → GroupVersionResource
resource_of resource = record { group = "riotkit.org"; version = "v1alpha1"; resource = resource }

abbrev pub kind_of : String → GroupVersionKind
kind_of kind = record { group = "riotkit.org"; version = "v1alpha1"; kind = kind }

module _ {T : RestTypes} {S : Type 0} where
  unfoldable pub fake_scheduled_backups :
      (F : Fake T S ScheduledBackup) → String → FakeInterface T S ScheduledBackup F.ListMeta
  unfolding fake_client
  fake_scheduled_backups F =
      fake_client F (λ b. b.meta.labels) empty_scheduled_backup (resource_of "scheduledbackups")
        (kind_of "ScheduledBackup")

  unfoldable pub fake_requested_backup_actions :
      (F : Fake T S RequestedBackupAction)
      → String
      → FakeInterface T S RequestedBackupAction F.ListMeta
  unfolding fake_client
  fake_requested_backup_actions F =
      fake_client F (λ a. a.meta.labels) empty_requested_backup_action
        (resource_of "requestedbackupactions") (kind_of "RequestedBackupAction")

  unfoldable pub fake_cluster_backup_procedure_templates :
      (F : Fake T S ClusterBackupProcedureTemplate)
      → String
      → FakeInterface T S ClusterBackupProcedureTemplate F.ListMeta
  unfolding fake_client
  fake_cluster_backup_procedure_templates F =
      fake_client F (λ t. t.meta.labels) empty_template
        (resource_of "clusterbackupproceduretemplates") (kind_of "ClusterBackupProcedureTemplate")
