-- ===== src/Bmg/Definition.antt =====
-- templating.go's `writeDefinition`: the variables of the backup, overwritten by the additional ones and
-- by those of a secret. A map is gone through in the order of its list; Go's order is not fixed.
pub mod Values
use backup_maker_controller.Prelude.{
  ltb, String, ◌==◌, ◌<>◌, Bool, true, false, not, ◌&&◌, Option, none, some, List, [], ◌∷◌, ◌++◌,
  length, Dict, Err, Fallible, gives, fails, wrap_error, Go, ◌>>=◌, if◌then◌else◌,
}
use backup_maker_controller.Kube.{Secret}
use backup_maker_controller.Cluster.{Cluster}
use backup_maker_controller.Workspace.{Workspace}
use backup_maker_controller.Domain.Aggregate.{ScheduledBackupAggregate}
use backup_maker_controller.Bmg.State.{Context, on_disk, lift}

pub data SourceType : Type 0 where
  additional_vars : SourceType
  secret : SourceType

pub record VarSource : Type 0 where
  pub entries : Dict String
  pub source_type : SourceType

unfoldable pub contains : List String → String → Bool
contains [] e = false
contains (a ∷ s) e = let rest = contains s e in if a == e then true else rest

abbrev is_secret : SourceType → Bool
is_secret additional_vars = false
is_secret secret = true

-- A variable of the secret is passed over if only some keys are to be imported and it is not one.
unfoldable pub is_skipped : List String → SourceType → String → Bool
unfolding contains
is_skipped import_only_keys source path =
    is_secret source && ltb 0 (length import_only_keys) && not (contains import_only_keys path)

additional_source : Dict String → List VarSource
additional_source vars =
    if ltb 0 (length vars)
    then record { entries = vars; source_type = additional_vars } ∷ []
    else []

secret_source_of : Option (Dict String) → List VarSource
secret_source_of none = []
secret_source_of (some d) =
    if ltb 0 (length d) then record { entries = d; source_type = secret } ∷ [] else []

secret_source : Option Secret → List VarSource
unfolding secret_source_of
secret_source none = []
secret_source (some s) = secret_source_of s.contents

-- The additional variables first, then the secret's.
unfoldable pub var_sources : ScheduledBackupAggregate → List VarSource
unfolding additional_source secret_source
var_sources backup =
    additional_source backup.additional_vars_list ++ secret_source backup.vars_list_secret

module _ (W : Workspace) where
  -- `expression.Set(vars, value)` at the parsed path.
  set_at : Fallible W.JsonPath → String → String → W.Vars → Fallible W.Vars
  set_at (fails e) path value vars = fails (
      Err.wrap e (
        "cannot parse dot-notation path to convert from some.path.dot format. Name: '"
        <> (path <> "'")))
  set_at (gives expression) path value vars =
      wrap_error (W.set_path expression vars value)
        ("cannot merge value from Secret into the vars, name: '" <> (path <> "'"))

  set_var_at : String → String → W.Vars → Fallible W.Vars
  unfolding set_at
  set_var_at path value vars = set_at (W.parse_path ("$." <> path)) path value vars

  set_entries : List String → SourceType → Dict String → W.Vars → Fallible W.Vars
  unfolding set_var_at
  set_entries keys source [] vars = gives vars
  set_entries keys source ((path, value) ∷ entries) vars =
      elim (if is_skipped keys source path then gives vars else set_var_at path value vars) [
        | gives vars' ↦ set_entries keys source entries vars'
        | fails e ↦ fails e
      ]

  set_sources : List String → List VarSource → W.Vars → Fallible W.Vars
  unfolding set_entries
  set_sources keys [] vars = gives vars
  set_sources keys (source ∷ sources) vars =
      elim (set_entries keys source.source_type source.entries vars) [
        | gives vars' ↦ set_sources keys sources vars'
        | fails e ↦ fails e
      ]

  -- The variables that are written, before they become YAML again.
  unfoldable pub merged_vars : ScheduledBackupAggregate → W.Vars → Fallible W.Vars
  unfolding set_sources var_sources
  merged_vars backup vars =
      set_sources backup.scheduled_backup.spec.vars_secret_ref.import_only_keys (var_sources backup)
        vars

module _ {C : Cluster} (W : Workspace) where
  unfoldable pub write_definition : ScheduledBackupAggregate → String → Go (Context C W) (Unit {0})
  write_definition backup write_to_path = do
    vars ← lift (
        wrap_error (W.unmarshal_vars backup.scheduled_backup.spec.vars)
          "cannot parse .spec.vars as YAML")
    vars' ← lift (merged_vars W backup vars)
    as_yaml ←
        lift
          (wrap_error (W.marshal_vars vars') "cannot serialize vars to YAML as a definition.yaml")
    on_disk (W.write_file write_to_path as_yaml)
