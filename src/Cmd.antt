-- ===== src/Cmd.antt =====
-- main.go and cmd/root.go: the flags, the parts that are put together, and how the process ends. The
-- manager, the clients and the parser of the flags are not part of the repository: they are the
-- record `Runtime`.
pub mod Packages
pub mod Setup
pub mod Endings
use backup_maker_controller.Prelude.{
  ℕ, String, ◌==◌, ◌<>◌, Bool, true, false, Option, none, some, List, [], ◌∷◌, Err, Fallible, gives,
  fails, if◌then◌else◌,
}
use backup_maker_controller.Client.Connect.{new_for_config}
use backup_maker_controller.Cmd.Packages.{
  App, Kinds, Runtime, Ending, returned, panicked, exited, Outcome, going, ended, Step, ◌>>=◌, ◌>>◌,
  AppLocker, in_memory, redis_distributed, Deps, ObserverDeps, Reconciler, template_reconciler,
  backup_reconciler, action_reconciler, action_observer, backup_observer, Registration,
}

-- The flags with their defaults.
abbrev pub default_app : App
default_app = record {
  debug = true;
  metrics_bind_address = ":8080";
  health_probe_bind_address = ":8081";
  leader_elect = false;
  zap_devel = false;
  redis_host = "redis";
  redis_port = 6379;
  disable_redis = false;
}

-- The exit code of the process. A panic that nobody recovers from is a 2.
unfoldable pub exit_code : Ending → ℕ
exit_code (returned none) = 0
exit_code (returned (some e)) = 1
exit_code panicked = 2
exit_code (exited n) = n

module _ {T : Kinds} (R : Runtime T) where
  -- `redis.NewClient`, with the address `host:port`.
  new_redis_distributed_locker : String → String → ℕ → T.State → AppLocker T × T.State
  new_redis_distributed_locker proto host port s =
      let (client, s') = R.new_redis_client proto (host <> (":" <> R.number_text port)) s in
      (redis_distributed client, s')

  unfoldable pub choose_locker : App → T.State → AppLocker T × T.State
  unfolding new_redis_distributed_locker
  choose_locker app s =
      if app.disable_redis
      then (in_memory, s)
      else new_redis_distributed_locker "tcp" app.redis_host app.redis_port s

  unfoldable pub close : AppLocker T → T.State → T.State
  close in_memory s = s
  close (redis_distributed client) s = R.close_redis client s

  unfoldable pub build_config : String → T.State → Fallible T.Config
  build_config kubeconfig s =
      if kubeconfig == "" then R.in_cluster_config s else R.build_config_from_flags "" kubeconfig s

  -- What the five controllers are made of.
  unfoldable pub deps_of : T.Manager → T.Config → T.DynClient → T.BrClient → AppLocker T → Deps T
  deps_of mgr config dyn br locker = record {
    client = R.get_client mgr;
    scheme = R.get_scheme mgr;
    cache = R.get_cache mgr;
    br_client = br;
    rest_cfg = config;
    dyn_client = dyn;
    fetcher = (R.get_cache mgr, br);
    recorder = R.get_event_recorder_for mgr "backup-maker-controller";
    locker = locker;
  }

  -- `SetupWithManager` of each of them: what is watched, which resources it owns, and whether the events
  -- of a deletion are dropped.
  template_registration : T.Manager → T.Client → T.Scheme → T.Cache → Registration T
  template_registration mgr client scheme cache = record {
    manager = mgr;
    for_kind = "ClusterBackupProcedureTemplate";
    owns = [];
    drops_deletions = false;
    reconciler = template_reconciler client scheme cache;
  }

  backup_registration : T.Manager → Deps T → Registration T
  backup_registration mgr deps = record {
    manager = mgr;
    for_kind = "ScheduledBackup";
    owns = [];
    drops_deletions = true;
    reconciler = backup_reconciler deps;
  }

  action_registration : T.Manager → Deps T → Registration T
  action_registration mgr deps = record {
    manager = mgr;
    for_kind = "RequestedBackupAction";
    owns = [];
    drops_deletions = true;
    reconciler = action_reconciler deps;
  }

  action_observer_registration : T.Manager → ObserverDeps T → Registration T
  action_observer_registration mgr deps = record {
    manager = mgr;
    for_kind = "RequestedBackupAction";
    owns = "Job" ∷ "CronJob" ∷ [];
    drops_deletions = true;
    reconciler = action_observer deps;
  }

  backup_observer_registration : T.Manager → ObserverDeps T → Registration T
  backup_observer_registration mgr deps = record {
    manager = mgr;
    for_kind = "ScheduledBackup";
    owns = "Job" ∷ "CronJob" ∷ [];
    drops_deletions = true;
    reconciler = backup_observer deps;
  }

  unfoldable pub registration : T.Manager → Reconciler T → Registration T
  unfolding template_registration backup_registration action_registration
      action_observer_registration backup_observer_registration
  registration mgr (template_reconciler client scheme cache) =
      template_registration mgr client scheme cache
  registration mgr (backup_reconciler deps) = backup_registration mgr deps
  registration mgr (action_reconciler deps) = action_registration mgr deps
  registration mgr (action_observer deps) = action_observer_registration mgr deps
  registration mgr (backup_observer deps) = backup_observer_registration mgr deps

  -- `if err != nil { return err }`
  return_error : Option Err × T.State → Outcome (Unit {0}) × T.State
  return_error (none, s) = (going tt, s)
  return_error (some e, s) = (ended (returned (some e)), s)

  or_return : (T.State → Option Err × T.State) → Step T (Unit {0})
  unfolding return_error
  or_return call s = return_error (call s)

  or_panic : {A : Type 0} → Fallible A → Step T A
  or_panic (gives a) s = (going a, s)
  or_panic (fails e) s = (ended panicked, s)

  set_up : T.Manager → Reconciler T → Step T (Unit {0})
  unfolding or_return registration
  set_up mgr r = or_return (R.complete (registration mgr r))

  set_up_all : T.Manager → List (Reconciler T) → Step T (Unit {0})
  unfolding set_up
  set_up_all mgr [] s = (going tt, s)
  set_up_all mgr (r ∷ rs) s = (set_up mgr r >> set_up_all mgr rs) s

  observer_deps : T.Manager → Deps T → T.BatchClient → ObserverDeps T
  observer_deps mgr deps batch = record {
    integrations = batch;
    fetcher = deps.fetcher;
    br_client = deps.br_client;
    client = R.get_client mgr;
    locker = deps.locker;
  }

  -- The five controllers, in the order in which they are set up.
  unfoldable pub controllers : T.Manager → Deps T → T.BatchClient → List (Reconciler T)
  unfolding observer_deps
  controllers mgr deps batch =
      template_reconciler (R.get_client mgr) (R.get_scheme mgr) (R.get_cache mgr)
      ∷ backup_reconciler deps
      ∷ action_reconciler deps
      ∷ action_observer (observer_deps mgr deps batch)
      ∷ backup_observer (observer_deps mgr deps batch)
      ∷ []

  new_br_client : T.Config → Fallible T.BrClient
  unfolding new_for_config
  new_br_client config = new_for_config R.rest_client_for R.default_agent (R.config_of config)

  -- The constructors of the integrations panic where the client of jobs cannot be made.
  new_kubernetes_job_resource_type : T.Config → Step T T.BatchClient
  unfolding or_panic
  new_kubernetes_job_resource_type config = or_panic (R.new_batch_client config)

  new_all_supported_job_resource_types : T.Config → Step T T.BatchClient
  unfolding new_kubernetes_job_resource_type
  new_all_supported_job_resource_types config = new_kubernetes_job_resource_type config

  manager_or_exit : Fallible T.Manager × T.State → Outcome T.Manager × T.State
  manager_or_exit (gives mgr, s) = (going mgr, s)
  manager_or_exit (fails e, s) = (ended (exited 1), s)

  new_manager_with : App → Option T.Config → Step T T.Manager
  unfolding manager_or_exit
  new_manager_with app none s = (ended (exited 1), s)
  new_manager_with app (some config) s = manager_or_exit (
      R.new_manager config
        (record {
          metrics_bind_address = app.metrics_bind_address;
          port = 9443;
          health_probe_bind_address = app.health_probe_bind_address;
          leader_election = app.leader_elect;
          leader_election_id = "7b93e0c3.riotkit.org";
          leader_election_release_on_cancel = true;
        })
        s)

  -- `GetConfigOrDie` and a manager that cannot be made end the process.
  new_manager : App → Step T T.Manager
  unfolding new_manager_with
  new_manager app s = new_manager_with app (R.get_config s) s

  -- What comes before `mgr.Start`.
  pub prepare : App → AppLocker T → Step T T.Manager
  unfolding new_manager or_panic build_config deps_of set_up_all controllers or_return new_br_client
      new_all_supported_job_resource_types
  prepare app locker = do
    mgr ← new_manager app
    config ← λ s. or_panic (build_config (R.getenv "KUBECONFIG" s) s) s
    dyn ← or_panic (R.new_dynamic_client config)
    br ← or_panic (new_br_client config)
    batch ← new_all_supported_job_resource_types config
    set_up_all mgr (controllers mgr (deps_of mgr config dyn br locker) batch)
    or_return (R.add_healthz_check mgr "healthz")
    or_return (R.add_readyz_check mgr "readyz")
    λ s. (going mgr, s)

  body : App → AppLocker T → Step T (Unit {0})
  unfolding prepare or_return
  body app locker = do mgr ← prepare app locker; or_return (R.start mgr)

  -- `defer locker.Close()` runs on a return and on a panic, and not where the process exits.
  finish : AppLocker T → Outcome (Unit {0}) × T.State → Ending × T.State
  unfolding close
  finish locker (going _, s) = (returned none, close locker s)
  finish locker (ended (returned e), s) = (returned e, close locker s)
  finish locker (ended panicked, s) = (panicked, close locker s)
  finish locker (ended (exited n), s) = (exited n, s)

  unfoldable pub run : App → T.State → Ending × T.State
  unfolding choose_locker body finish
  run app s =
      let s' = if app.debug then R.set_debug_level s else s in
      let (locker, s'') = choose_locker app s' in
      finish locker (body app locker (R.set_logger app.zap_devel s''))

  run_parsed : Fallible (Option App) → T.State → ℕ × T.State
  unfolding run exit_code
  run_parsed (fails e) s = (1, s)
  run_parsed (gives none) s = (0, s)
  run_parsed (gives (some app)) s = let (e, s') = run app s in (exit_code e, s')

  -- `main`, with the arguments after the name of the program. The parser gives none where it only prints
  -- a help text.
  unfoldable pub main : List String → T.State → ℕ × T.State
  unfolding run_parsed
  main args s = run_parsed (R.parse_flags default_app args) s
