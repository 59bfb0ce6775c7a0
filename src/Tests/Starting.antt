-- ===== src/Tests/Starting.antt =====
-- A process that starts with a manager that lists its controllers.
use backup_maker_controller.Prelude.{
  String, List, ◌∷◌, ◌==◌, ◌||◌, ◌≡◌, ◌⊎◌, ◌↔◌, refl, Bool, true, false, none, some, [], new, gives,
}
use backup_maker_controller.Cmd.Packages.{Kinds, Runtime, Registration, returned, exited}
use backup_maker_controller.Cmd.{default_app, run, main}
use backup_maker_controller.Cmd.Endings.{main_code_iff, run_closes}

pub record Process : Type 0 where
  pub connected : Bool
  pub registered : List String
  pub ready : Bool
  pub runs : Bool

abbrev idle : Process
idle = record { connected = false; registered = []; ready = false; runs = false }

abbrev kinds : Kinds
kinds = record {
  State = Process;
  Config = Unit {0};
  Manager = Unit {0};
  Client = Unit {0};
  Scheme = Unit {0};
  Cache = Unit {0};
  Recorder = Unit {0};
  DynClient = Unit {0};
  BrClient = Unit {0};
  BatchClient = Unit {0};
  RedisClient = Unit {0};
}

abbrev contains : String → List String → Bool
contains x [] = false
contains x (y ∷ ys) = x == y || contains x ys

abbrev runtime : Runtime kinds
runtime = record {
  set_debug_level = λ s. s;
  set_logger = λ b s. s;
  new_redis_client = λ network address s. (tt, record s { connected = true });
  close_redis = λ client s. record s { connected = false };
  number_text = λ n. "6379";
  get_config = λ s. some tt;
  new_manager = λ config options s. (gives tt, s);
  get_client = λ mgr. tt;
  get_scheme = λ mgr. tt;
  get_cache = λ mgr. tt;
  get_event_recorder_for = λ mgr name. tt;
  getenv = λ name s. "";
  build_config_from_flags = λ url path s. gives tt;
  in_cluster_config = λ s. gives tt;
  new_dynamic_client = λ config. gives tt;
  config_of = λ config. record {
    group = "";
    version = "";
    api_path = "";
    without_conversion = false;
    user_agent = "";
    others = config;
  };
  default_agent = "agent";
  rest_client_for = λ config. gives tt;
  new_batch_client = λ config. gives tt;
  complete = λ r s. (none, record s { registered = r.for_kind ∷ s.registered });
  add_healthz_check = λ mgr name s. (none, s);
  add_readyz_check = λ mgr name s. (none, record s { ready = true });
  start = λ mgr s. (some (new "signal"), record s { runs = true });
  parse_flags = λ app args. gives (some app);
}

abbrev HasNotRun : Process → Type 0
HasNotRun s = s.runs ≡ false

main_code_iff_example :
    ((main runtime [] idle).0 ≡ 0) ↔ ((run runtime default_app idle).0 ≡ returned none)
main_code_iff_example = main_code_iff runtime default_app idle [] refl

-- The kinds of the registered controllers are listed in the process.
abbrev IsListed : Registration kinds → Process → Type 0
IsListed r s = contains r.for_kind s.registered ≡ true

run_closes_example :
    ((run runtime default_app idle).0 ≡ exited 1)
    ⊎ ((run runtime default_app idle).1.connected ≡ false)
run_closes_example =
    run_closes runtime default_app idle (λ client s. s.connected ≡ false) refl (λ client s. refl)
