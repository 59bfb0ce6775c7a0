-- ===== src/Tests/Samples.antt =====
-- A cluster, a disk, a key generator and library functions to run the definitions with.
use backup_maker_controller.Prelude.{
  String, ◌==◌, ◌<>◌, refl, Bool, true, false, not, Option, none, some, List, [], ◌∷◌, ◌++◌, keep,
  has_prefix, Err, new, wrap, foreign, gives, fails, if◌then◌else◌,
}
use backup_maker_controller.Kube.{
  GroupVersionKind, ObjectMeta, Secret, Unstructured, mapping, Request, Condition, Job, empty_meta,
  empty_secret,
}
use backup_maker_controller.Libs.{Libs, IsLawful}
use backup_maker_controller.Cluster.{Cluster, RetryStops}
use backup_maker_controller.Workspace.{Workspace, IsTidy}
use backup_maker_controller.Gpg.{Crypto}
use backup_maker_controller.Api.Specs.{ScheduledBackupSpec, empty_spec}
use backup_maker_controller.Api.ScheduledBackup.{ScheduledBackup, empty_scheduled_backup}
use backup_maker_controller.Api.RequestedBackupAction.{
  RequestedBackupAction, empty_requested_backup_action,
}

abbrev text_of : Err → String
text_of (new s) = s
text_of (wrap e s) = s <> (": " <> text_of e)
text_of (foreign n s) = s

abbrev not_found : Err → Bool
not_found (new s) = false
not_found (wrap e s) = false
not_found (foreign n s) = s == "not found"

abbrev kind_of_parts : List String → String → GroupVersionKind
kind_of_parts [] kind = record { group = ""; version = ""; kind = kind }
kind_of_parts (v ∷ []) kind = record { group = ""; version = v; kind = kind }
kind_of_parts (g ∷ v ∷ _) kind = record { group = g; version = v; kind = kind }

abbrev pub libs : Libs
libs = record {
  error_text = text_of;
  is_not_found = not_found;
  gvk_string = λ g. g.group <> ("/" <> (g.version <> (", Kind=" <> g.kind)));
  kinds_text = λ _. "kinds";
  group_version_kind = λ t.
      if t.api_version == "batch/v1"
      then record { group = "batch"; version = "v1"; kind = t.kind }
      else record { group = ""; version = t.api_version; kind = t.kind };
  type_meta_of = λ g. record {
    api_version = if g.group == "" then g.version else g.group <> ("/" <> g.version);
    kind = g.kind;
  };
  namespaced_name_string = λ req. req.namespace <> ("/" <> req.name);
  set_status_condition =
      λ cs c. keep (λ (d : Condition). not (d.condition_type == c.condition_type)) cs ++ c ∷ [];
  marshal_spec = λ spec. spec.collection_id;
  sha256_hex = λ s. "#" <> s;
}

abbrev pub libs-IsLawful : IsLawful libs
libs-IsLawful = record { error_text-new = λ s. refl }

abbrev pub crypto : Crypto
crypto = record {
  Key = String;
  generate_key = λ name email. gives email;
  armor = λ key. gives ("private " <> key);
  get_armored_public_key = λ key. gives ("public " <> key);
}

-- A generator that has no entropy.
abbrev pub no_keys : Crypto
no_keys = record {
  Key = String;
  generate_key = λ name email. fails (new "no entropy");
  armor = λ key. gives key;
  get_armored_public_key = λ key. gives key;
}

abbrev pub req : Request
req = record { namespace = "ns"; name = "db" }

abbrev pub named : String → ObjectMeta
named name = record empty_meta { name = name; namespace = "ns" }

abbrev pub sample_spec : ScheduledBackupSpec
sample_spec = record empty_spec {
  collection_id = "c1";
  gpg_key_secret_ref = record {
    secret_name = "keys";
    public_key = "";
    private_key = "";
    passphrase_key = "";
    email = "a@b";
    create_if_not_exists = false;
  };
  token_secret_ref = record { secret_name = "token"; token_key = "token" };
  template_ref = record { name = "pg"; kind = "internal" };
}

abbrev pub sample_backup : ScheduledBackup
sample_backup = record empty_scheduled_backup { meta = named "db"; spec = sample_spec }

abbrev pub sample_action : RequestedBackupAction
sample_action = record empty_requested_backup_action {
  meta = named "db";
  spec = record {
    action = "backup";
    target_version = "";
    scheduled_backup_ref = record { name = "db" };
    kind_type = "";
  };
}

-- A secret with both keys, and a token.
abbrev pub sample_secret : Secret
sample_secret = record empty_secret {
  meta = named "keys";
  contents = some (("key", "private k") ∷ ("key.pub", "public k") ∷ ("token", "t0") ∷ []);
}

-- What the server holds.
pub record Server : Type 0 where
  pub scheduled : ScheduledBackup
  pub requested : RequestedBackupAction
  pub secret : Secret × Option Err
  pub objects : List Unstructured
  pub jobs : List Job

abbrev pub server : Server
server = record {
  scheduled = sample_backup;
  requested = sample_action;
  secret = (sample_secret, none);
  objects = [];
  jobs = [];
}

abbrev knows : String → Option (Unit {0})
knows kind = if kind == "Job" then some tt else if kind == "ConfigMap" then some tt else none

abbrev pub cluster : Cluster
cluster = record {
  State = Server;
  Resource = Unit {0};
  cache_get_scheduled_backup = λ r b s. (s.scheduled, none);
  cache_get_template = λ name t s. (t, some (foreign 404 "not found"));
  cache_get_secret = λ r secret s. s.secret;
  client_get_secret = λ r secret s. s.secret;
  client_create_secret = λ secret s. ((secret, none), record s { secret = (secret, none) });
  client_update_secret = λ secret s. ((secret, none), record s { secret = (secret, none) });
  get_requested_backup_action = λ r s. (s.requested, none);
  update_status_requested_backup_action = λ ns a s. (none, record s { requested = a });
  get_scheduled_backup = λ r s. (s.scheduled, none);
  update_status_scheduled_backup = λ ns b s. (none, record s { scheduled = b });
  list_jobs = λ ns selector s. gives s.jobs;
  new_discovery_client = λ s. none;
  rest_mapping = λ g s. knows g.kind;
  get_object = λ r ns name s. some (foreign 404 "not found");
  create_object = λ r ns obj s. (none, record s { objects = s.objects ++ obj ∷ [] });
  update_object = λ r ns obj s. (none, s);
  retry_on_conflict = λ attempt s. attempt s;
}

abbrev pub cluster-RetryStops : RetryStops cluster
cluster-RetryStops = record { retry_success = λ attempt s s' h. h }

-- The working directory, the directory that was made, and the text that the generator writes.
pub record Disk : Type 0 where
  pub cwd : String
  pub temporary : Bool
  pub manifest : String

abbrev pub disk : Disk
disk = record { cwd = "/app"; temporary = false; manifest = "Job a\n---\nConfig b\n" }

abbrev decoded : String → Unstructured
decoded s = record {
  type_meta =
      if has_prefix s "Job"
      then record { api_version = "batch/v1"; kind = "Job" }
      else record { api_version = "v1"; kind = "ConfigMap" };
  metadata = mapping (record empty_meta { name = s });
  body = s;
}

abbrev pub workspace : Workspace
workspace = record {
  State = Disk;
  Vars = String;
  JsonPath = String;
  getwd = λ d. d.cwd;
  chdir = λ p d. record d { cwd = p };
  mkdir_temp = λ parent pattern d. (gives "/tmp/bmg1", record d { temporary = true });
  mkdir_all = λ path d. (none, d);
  remove_all = λ path d. record d { temporary = false };
  write_file = λ path text d. (none, d);
  read_file = λ path d. gives d.manifest;
  dir = λ path. path;
  marshal_template = λ t. gives t.backup_template;
  extract_required_resources = λ d. (none, d);
  run = λ command d. (none, d);
  unmarshal_vars = λ s. gives s;
  marshal_vars = λ s. gives s;
  parse_path = λ s. gives s;
  set_path = λ path vars value. gives (vars <> (path <> ("=" <> (value <> ";"))));
  decode = λ s. gives (decoded s);
  new_uuid = λ d. ("id-1", d);
}

abbrev pub workspace-IsTidy : IsTidy workspace
workspace-IsTidy = record {
  present = λ path d. d.temporary;
  present-remove_all = λ path d. refl;
  present-chdir = λ path p d. refl;
  getwd-chdir = λ p d. refl;
}
