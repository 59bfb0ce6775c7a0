-- ===== src/Tests/Defining.antt =====
-- A definition.yaml that is a table of paths.
use backup_maker_controller.Prelude.{
  String, ◌==◌, ◌<>◌, ◌≡◌, refl, arith, true, not, some, Option, [], ◌∷◌, Dict, lookup, assign,
  lookup-assign, last_of, eq_iff, gives, if◌then◌else◌,
}
use backup_maker_controller.Kube.{empty_secret}
use backup_maker_controller.Workspace.{Workspace}
use backup_maker_controller.Domain.Aggregate.{ScheduledBackupAggregate}
use backup_maker_controller.Bmg.Definition.{secret, contains, is_skipped, var_sources, merged_vars}
use backup_maker_controller.Bmg.Definition.Values.{HasPaths, secret_entries, merged_vars-value}
use backup_maker_controller.Tests.Samples.{workspace}
use backup_maker_controller.Tests.Rendering.{hydrated}

abbrev tables : Workspace
tables = record workspace {
  Vars = Dict String;
  JsonPath = String;
  unmarshal_vars = λ s. gives [];
  marshal_vars = λ vars. gives "";
  parse_path = λ s. gives s;
  set_path = λ path vars value. gives (assign path value vars);
}

abbrev read_at : String → Dict String → Option String
read_at path vars = lookup ("$." <> path) vars

-- What the table holds after the assignment at a path.
set_same_in :
    (path value x : String) (vars vars' : Dict String)
    → gives ("$." <> path) ≡ gives x
    → gives (assign x value vars) ≡ gives vars'
    → read_at path vars' ≡ some value
set_same_in path value x vars vars' parsed set =
    ground (arith, parsed, set, lookup-assign ("$." <> path) x value vars, eq_iff x ("$." <> path))

set_other_in :
    (path other value x : String) (vars vars' : Dict String)
    → not (("$." <> path) == ("$." <> other)) ≡ true
    → gives ("$." <> path) ≡ gives x
    → gives (assign x value vars) ≡ gives vars'
    → read_at other vars' ≡ read_at other vars
set_other_in path other value x vars vars' apart parsed set = ground (
  arith,
  apart,
  parsed,
  set,
  lookup-assign ("$." <> other) x value vars,
  eq_iff x ("$." <> other),
  eq_iff ("$." <> path) ("$." <> other),
)

abbrev tables-HasPaths : HasPaths tables
tables-HasPaths = record {
  value_at = read_at;
  are_apart = λ path other. not (("$." <> path) == ("$." <> other));
  set_same = λ path value x vars vars' parsed set. set_same_in path value x vars vars' parsed set;
  set_other = λ path other value x vars vars' apart parsed set.
      set_other_in path other value x vars vars' apart parsed set;
}

-- The token is in both sources, and the secret has a text of its own.
abbrev with_vars : ScheduledBackupAggregate
with_vars = record hydrated {
  additional_vars_list = ("token", "t1") ∷ ("HelmValues.kindType", "Job") ∷ [];
  vars_list_secret =
      some (record empty_secret { contents = some (("token", "t2") ∷ ("Params.host", "db") ∷ []) });
}

abbrev table : Dict String
table = ("$.token", "t2") ∷ ("$.HelmValues.kindType", "Job") ∷ ("$.Params.host", "db") ∷ []

merged_table : merged_vars tables with_vars [] ≡ gives table
unfolding merged_vars var_sources is_skipped contains assign
merged_table = refl

merged_vars-value_example : read_at "token" table ≡ (
    if is_skipped [] secret "token"
    then last_of "token" (read_at "token" []) with_vars.additional_vars_list
    else last_of "token"
        (last_of "token" (read_at "token" []) with_vars.additional_vars_list)
        (secret_entries with_vars.vars_list_secret))
merged_vars-value_example =
    merged_vars-value tables tables-HasPaths "token" with_vars [] table (refl, (refl, tt))
      (refl, (refl, tt)) merged_table
