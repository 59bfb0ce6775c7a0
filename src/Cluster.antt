-- ===== src/Cluster.antt =====
-- The Kubernetes API as the program calls it: the cache of the manager, the typed and the dynamic
-- clients, and the retry helper of client-go. None of these is part of the repository, so they are a
-- record of functions over an unknown state. A read leaves the state as it is. `Get` fills the object
-- that it is given, and may leave it as it was beside an error.
use backup_maker_controller.Prelude.{String, ◌≡◌, Option, none, List, Err, Fallible}
use backup_maker_controller.Kube.{GroupVersionKind, Request, Secret, Unstructured, Job}
use backup_maker_controller.Api.ScheduledBackup.{ScheduledBackup}
use backup_maker_controller.Api.RequestedBackupAction.{RequestedBackupAction}
use backup_maker_controller.Api.Template.{ClusterBackupProcedureTemplate}

pub record Cluster : Type 1 where
  pub State : Type 0
  -- The resource that a kind is mapped to.
  pub Resource : Type 0
  -- `Cache.Get(ctx, key, &object)`
  pub cache_get_scheduled_backup : Request → ScheduledBackup → State → ScheduledBackup × Option Err
  pub cache_get_template :
      String → ClusterBackupProcedureTemplate → State → ClusterBackupProcedureTemplate × Option Err
  pub cache_get_secret : Request → Secret → State → Secret × Option Err
  -- `client.Get`, `client.Create` and `client.Update` of the manager's client. They write what the
  -- server answered to the object.
  pub client_get_secret : Request → Secret → State → Secret × Option Err
  pub client_create_secret : Secret → State → (Secret × Option Err) × State
  pub client_update_secret : Secret → State → (Secret × Option Err) × State
  -- The typed client: `Get` and `UpdateStatus`, by namespace.
  pub get_requested_backup_action : Request → State → RequestedBackupAction × Option Err
  pub update_status_requested_backup_action :
      String → RequestedBackupAction → State → Option Err × State
  pub get_scheduled_backup : Request → State → ScheduledBackup × Option Err
  pub update_status_scheduled_backup : String → ScheduledBackup → State → Option Err × State
  -- `client.Jobs(namespace).List` with a label selector.
  pub list_jobs : String → String → State → Fallible (List Job)
  -- `discovery.NewDiscoveryClientForConfig`, and `mapper.RESTMapping`: none is the nil mapping that
  -- stands beside an error.
  pub new_discovery_client : State → Option Err
  pub rest_mapping : GroupVersionKind → State → Option Resource
  -- The dynamic client of a resource in a namespace.
  pub get_object : Resource → String → String → State → Option Err
  pub create_object : Resource → String → Unstructured → State → Option Err × State
  pub update_object : Resource → String → Unstructured → State → Option Err × State
  -- `retry.RetryOnConflict(retry.DefaultRetry, fn)`
  pub retry_on_conflict : (State → Option Err × State) → State → Option Err × State

-- An attempt that succeeds is the last one.
pub record RetryStops (C : Cluster) : Type 0 where
  pub retry_success :
      (attempt : C.State → Option Err × C.State) (s s' : C.State)
      → attempt s ≡ (none, s')
      → C.retry_on_conflict attempt s ≡ (none, s')
