-- ===== src/Workspace.antt =====
-- What rendering needs from outside the repository: the file system, the generator of Backup Maker, the
-- codecs for YAML, JSON and JSON paths, and fresh identifiers; a record of functions over an unknown
-- state. `filepath.Dir` is among them.
use backup_maker_controller.Prelude.{String, Bool, ◌≡◌, false, Option, Err, Fallible}
use backup_maker_controller.Kube.{Unstructured}

-- `generate.TemplateDefinition`
pub record TemplateDefinition : Type 0 where
  pub default_image : String
  pub restore_template : String
  pub backup_template : String

-- `generate.SnippetGenerationCommand`
pub record SnippetGenerationCommand : Type 0 where
  pub template_name : String
  pub user_config_file : String
  pub is_kubernetes : Bool
  pub key_path : String
  pub output_dir : String
  pub schedule : String
  pub job_name : String
  pub image : String
  pub operation : String
  pub namespace : String

pub record Workspace : Type 1 where
  pub State : Type 0
  -- A YAML mapping, and a parsed JSON path.
  pub Vars : Type 0
  pub JsonPath : Type 0
  pub getwd : State → String
  pub chdir : String → State → State
  pub mkdir_temp : String → String → State → Fallible String × State
  pub mkdir_all : String → State → Option Err × State
  pub remove_all : String → State → State
  pub write_file : String → String → State → Option Err × State
  pub read_file : String → State → Fallible String
  pub dir : String → String
  pub marshal_template : TemplateDefinition → Fallible String
  pub extract_required_resources : State → Option Err × State
  pub run : SnippetGenerationCommand → State → Option Err × State
  pub unmarshal_vars : String → Fallible Vars
  pub marshal_vars : Vars → Fallible String
  pub parse_path : String → Fallible JsonPath
  pub set_path : JsonPath → Vars → String → Fallible Vars
  pub decode : String → Fallible Unstructured
  pub new_uuid : State → String × State

-- What the clean-up relies on: a removed directory is gone, and changing the working directory sets it
-- and touches no other.
pub record IsTidy (W : Workspace) : Type 0 where
  pub present : String → W.State → Bool
  pub present-remove_all : (d : String) (s : W.State) → present d (W.remove_all d s) ≡ false
  pub present-chdir : (d p : String) (s : W.State) → present d (W.chdir p s) ≡ present d s
  pub getwd-chdir : (p : String) (s : W.State) → W.getwd (W.chdir p s) ≡ p
