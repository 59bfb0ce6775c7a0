-- ===== src/Cmd/Packages.antt =====
-- The values that cmd/root.go handles, and the packages that it calls.
use backup_maker_controller.Prelude.{ℕ, String, Bool, Option, List, Err, Fallible}
use backup_maker_controller.Client.Connect.{Config}

pub record App : Type 0 where
  pub debug : Bool
  pub metrics_bind_address : String
  pub health_probe_bind_address : String
  pub leader_elect : Bool
  pub zap_devel : Bool
  pub redis_host : String
  pub redis_port : ℕ
  pub disable_redis : Bool

-- ctrl.Options, without the scheme, which is a value of the package.
pub record ManagerOptions : Type 0 where
  pub metrics_bind_address : String
  pub port : ℕ
  pub health_probe_bind_address : String
  pub leader_election : Bool
  pub leader_election_id : String
  pub leader_election_release_on_cancel : Bool

-- What the packages hold, from which a `Runtime` is made.
pub record Kinds : Type 1 where
  pub State : Type 0
  pub Config : Type 0
  pub Manager : Type 0
  pub Client : Type 0
  pub Scheme : Type 0
  pub Cache : Type 0
  pub Recorder : Type 0
  pub DynClient : Type 0
  pub BrClient : Type 0
  pub BatchClient : Type 0
  pub RedisClient : Type 0

-- How `Run` ends: with a result, a panic, or `os.Exit`.
pub data Ending : Type 0 where
  returned : Option Err → Ending
  panicked : Ending
  exited : ℕ → Ending

module _ (T : Kinds) where
  -- The locker that all controllers share.
  pub data AppLocker : Type 0 where
    in_memory : AppLocker
    redis_distributed : T.RedisClient → AppLocker

  -- The fields of the two reconcilers; a fetcher is its cache and its client.
  pub record Deps : Type 0 where
    pub client : T.Client
    pub scheme : T.Scheme
    pub cache : T.Cache
    pub br_client : T.BrClient
    pub rest_cfg : T.Config
    pub dyn_client : T.DynClient
    pub fetcher : T.Cache × T.BrClient
    pub recorder : T.Recorder
    pub locker : AppLocker

  -- The fields of the two observers; the one integration is its client of jobs.
  pub record ObserverDeps : Type 0 where
    pub integrations : T.BatchClient
    pub fetcher : T.Cache × T.BrClient
    pub br_client : T.BrClient
    pub client : T.Client
    pub locker : AppLocker

  pub data Reconciler : Type 0 where
    template_reconciler : T.Client → T.Scheme → T.Cache → Reconciler
    backup_reconciler : Deps → Reconciler
    action_reconciler : Deps → Reconciler
    action_observer : ObserverDeps → Reconciler
    backup_observer : ObserverDeps → Reconciler

  -- What `ctrl.NewControllerManagedBy(mgr)` is told.
  pub record Registration : Type 0 where
    pub manager : T.Manager
    pub for_kind : String
    pub owns : List String
    pub drops_deletions : Bool
    pub reconciler : Reconciler

-- The calls into logrus, controller-runtime, client-go, cobra and the Redis client.
pub record Runtime (T : Kinds) : Type 0 where
  pub set_debug_level : T.State → T.State
  pub set_logger : Bool → T.State → T.State
  pub new_redis_client : String → String → T.State → T.RedisClient × T.State
  pub close_redis : T.RedisClient → T.State → T.State
  -- `%v` of a number.
  pub number_text : ℕ → String
  -- `ctrl.GetConfigOrDie`: none where it ends the process.
  pub get_config : T.State → Option T.Config
  pub new_manager : T.Config → ManagerOptions → T.State → Fallible T.Manager × T.State
  pub get_client : T.Manager → T.Client
  pub get_scheme : T.Manager → T.Scheme
  pub get_cache : T.Manager → T.Cache
  pub get_event_recorder_for : T.Manager → String → T.Recorder
  pub getenv : String → T.State → String
  pub build_config_from_flags : String → String → T.State → Fallible T.Config
  pub in_cluster_config : T.State → Fallible T.Config
  pub new_dynamic_client : T.Config → Fallible T.DynClient
  -- The fields of a `rest.Config`, `rest.DefaultKubernetesUserAgent()` and `rest.RESTClientFor`.
  pub config_of : T.Config → Config T.Config
  pub default_agent : String
  pub rest_client_for : Config T.Config → Fallible T.BrClient
  -- The `NewForConfig` of client-go's batch/v1.
  pub new_batch_client : T.Config → Fallible T.BatchClient
  -- `…Complete(r)`, which adds the controller to the manager.
  pub complete : Registration T → T.State → Option Err × T.State
  pub add_healthz_check : T.Manager → String → T.State → Option Err × T.State
  pub add_readyz_check : T.Manager → String → T.State → Option Err × T.State
  -- `mgr.Start` runs the controllers until a signal comes.
  pub start : T.Manager → T.State → Option Err × T.State
  pub parse_flags : App → List String → Fallible (Option App)

-- A part of `Run` goes on with a value, or `Run` ends.
pub data Outcome (A : Type 0) : Type 0 where
  going : A → Outcome A
  ended : Ending → Outcome A

abbrev pub Step : Kinds → Type 0 → Type 0
Step T A = T.State → Outcome A × T.State

unfoldable pub bind_outcome :
    {A B S : Type 0} → Outcome A × S → (A → S → Outcome B × S) → Outcome B × S
bind_outcome (going a, s) f = f a s
bind_outcome (ended e, s) f = (ended e, s)

module _ {A B S : Type 0} where
  infixl 5 ◌>>=◌ ◌>>◌
  abbrev pub ◌>>=◌ : (S → Outcome A × S) → (A → S → Outcome B × S) → S → Outcome B × S
  ◌>>=◌ m f s = bind_outcome (m s) f

  abbrev pub ◌>>◌ : (S → Outcome A × S) → (S → Outcome B × S) → S → Outcome B × S
  ◌>>◌ m n s = bind_outcome (m s) (λ _. n)
