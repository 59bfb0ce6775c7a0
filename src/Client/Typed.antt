-- ===== src/Client/Typed.antt =====
-- typed/riotkit/v1alpha1: the typed clients. The three generated files differ in the resource and its
-- type only.
use backup_maker_controller.Prelude.{String, true, Option, none, some, List, [], ◌∷◌, Err, Fallible}
use backup_maker_controller.Api.ScheduledBackup.{ScheduledBackup, empty_scheduled_backup}
use backup_maker_controller.Api.RequestedBackupAction.{
  RequestedBackupAction, empty_requested_backup_action,
}
use backup_maker_controller.Api.Template.{ClusterBackupProcedureTemplate, empty_template}
use backup_maker_controller.Client.Rest.{
  ListOptions, RestTypes, Verb, get, post, put, delete, patch, no_params, get_params, list_params,
  create_params, update_params, patch_params, no_body, object, delete_options, bytes, RestRequest,
  duration_of, Rest,
}

-- The methods of the interface, over the state of the server.
pub record TypedInterface (T : RestTypes) (S O : Type 0) : Type 0 where
  pub create : O → T.CreateOptions → S → (O × Option Err) × S
  pub update : O → T.UpdateOptions → S → (O × Option Err) × S
  pub update_status : O → T.UpdateOptions → S → (O × Option Err) × S
  pub delete : String → T.DeleteOptions → S → Option Err × S
  pub delete_collection : T.DeleteOptions → ListOptions → S → Option Err × S
  pub get : String → T.GetOptions → S → O × Option Err
  pub list : ListOptions → S → List O × Option Err
  pub watch : ListOptions → S → Fallible T.Watch
  pub patch :
      String → T.PatchType → String → T.PatchOptions → List String → S → (O × Option Err) × S

-- What every request of a client starts with.
abbrev pub request : (T : RestTypes) (O : Type 0) → Verb T O → String → String → RestRequest T O
request T O verb namespace resource = record {
  verb = verb;
  namespace = namespace;
  resource = resource;
  name = none;
  subresources = [];
  params = no_params;
  timeout = 0;
  body = no_body;
}

module _ (T : RestTypes) (O : Type 0) (ns resource : String) where
  unfoldable pub get_request : String → T.GetOptions → RestRequest T O
  get_request name options = record (request T O get ns resource) {
    name = some name;
    params = get_params options;
  }

  unfoldable pub list_request : ListOptions → RestRequest T O
  unfolding duration_of
  list_request opts = record (request T O get ns resource) {
    params = list_params opts;
    timeout = duration_of opts.timeout_seconds;
  }

  unfoldable pub watch_request : ListOptions → RestRequest T O
  unfolding duration_of
  watch_request opts = record (request T O get ns resource) {
    params = list_params (record opts { watch = true });
    timeout = duration_of opts.timeout_seconds;
  }

  unfoldable pub create_request : O → T.CreateOptions → RestRequest T O
  create_request item opts = record (request T O post ns resource) {
    params = create_params opts;
    body = object item;
  }

  unfoldable pub update_request : String → O → T.UpdateOptions → RestRequest T O
  update_request name item opts = record (request T O put ns resource) {
    name = some name;
    params = update_params opts;
    body = object item;
  }

  unfoldable pub update_status_request : String → O → T.UpdateOptions → RestRequest T O
  update_status_request name item opts = record (request T O put ns resource) {
    name = some name;
    subresources = "status" ∷ [];
    params = update_params opts;
    body = object item;
  }

  unfoldable pub delete_request : String → T.DeleteOptions → RestRequest T O
  delete_request name opts = record (request T O delete ns resource) {
    name = some name;
    body = delete_options opts;
  }

  unfoldable pub delete_collection_request : T.DeleteOptions → ListOptions → RestRequest T O
  unfolding duration_of
  delete_collection_request opts list_opts = record (request T O delete ns resource) {
    params = list_params list_opts;
    timeout = duration_of list_opts.timeout_seconds;
    body = delete_options opts;
  }

  unfoldable pub patch_request :
      String → T.PatchType → String → T.PatchOptions → List String → RestRequest T O
  patch_request name pt contents opts subresources = record (request T O (patch pt) ns resource) {
    name = some name;
    subresources = subresources;
    params = patch_params opts;
    body = bytes contents;
  }

module _ {T : RestTypes} {S : Type 0} where
  -- The methods send these requests; the results start from an empty object.
  unfoldable pub typed_client :
      {O : Type 0} → Rest T S O → O → (O → String) → String → String → TypedInterface T S O
  unfolding get_request list_request watch_request create_request update_request
      update_status_request delete_request delete_collection_request patch_request
  typed_client {O = O} R empty name_of resource ns = record {
    create = λ item opts. R.write (create_request T O ns resource item opts) empty;
    update = λ item opts. R.write (update_request T O ns resource (name_of item) item opts) empty;
    update_status =
        λ item opts. R.write (update_status_request T O ns resource (name_of item) item opts) empty;
    delete = λ name opts. R.error (delete_request T O ns resource name opts);
    delete_collection =
        λ opts list_opts. R.error (delete_collection_request T O ns resource opts list_opts);
    get = λ name options. R.read (get_request T O ns resource name options) empty;
    list = λ opts. R.read_list (list_request T O ns resource opts) [];
    watch = λ opts. R.start_watch (watch_request T O ns resource opts);
    patch = λ name pt contents opts subresources.
        R.write (patch_request T O ns resource name pt contents opts subresources) empty;
  }

  unfoldable pub scheduled_backups :
      Rest T S ScheduledBackup → String → TypedInterface T S ScheduledBackup
  unfolding typed_client
  scheduled_backups R = typed_client R empty_scheduled_backup (λ b. b.meta.name) "scheduledbackups"

  unfoldable pub requested_backup_actions :
      Rest T S RequestedBackupAction → String → TypedInterface T S RequestedBackupAction
  unfolding typed_client
  requested_backup_actions R =
      typed_client R empty_requested_backup_action (λ a. a.meta.name) "requestedbackupactions"

  unfoldable pub cluster_backup_procedure_templates :
      Rest T S ClusterBackupProcedureTemplate
      → String
      → TypedInterface T S ClusterBackupProcedureTemplate
  unfolding typed_client
  cluster_backup_procedure_templates R =
      typed_client R empty_template (λ t. t.meta.name) "clusterbackupproceduretemplates"
