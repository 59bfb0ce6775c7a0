-- ===== src/Api/Register.antt =====
-- pkg/apis/riotkit/register.go, pkg/apis/riotkit/v1alpha1/register.go and the register.go of the two
-- generated schemes: the names of the group, and the registration of its types in a scheme.
pub mod Known
use backup_maker_controller.Prelude.{
  ℕ, String, List, [], ◌∷◌, Go, ok, err, panic, pure, bind_res, Res, ◌>>◌,
}
use backup_maker_controller.Kube.{GroupVersionKind}

pub record GroupVersion : Type 0 where
  pub group : String
  pub version : String

pub record GroupKind : Type 0 where
  pub group : String
  pub kind : String

pub record GroupResource : Type 0 where
  pub group : String
  pub resource : String

unfoldable pub group_name : String
group_name = "riotkit.org"

unfoldable pub scheme_group_version : GroupVersion
unfolding group_name
scheme_group_version = record { group = group_name; version = "v1alpha1" }

-- A function that may end the process, with the text that is logged before.
pub data Ending (A : Type 0) : Type 0 where
  returned : A → Ending A
  exited : ℕ → String → Ending A

-- `Kind`: `log.Fatal` ends the process with the code 1 before the return is reached.
unfoldable pub kind : String → Ending GroupKind
kind name = exited 1 "OOOO"

unfoldable pub resource : String → GroupResource
unfolding scheme_group_version
resource name = record { group = scheme_group_version.group; resource = name }

-- The Go types of the package that `addKnownTypes` lists.
pub data KnownType : Type 0 where
  cluster_backup_procedure_template : KnownType
  cluster_backup_procedure_template_list : KnownType
  requested_backup_action : KnownType
  requested_backup_action_list : KnownType
  scheduled_backup : KnownType
  scheduled_backup_list : KnownType

-- The name of the Go type, which is the kind that a scheme knows it by.
unfoldable pub type_name : KnownType → String
type_name cluster_backup_procedure_template = "ClusterBackupProcedureTemplate"
type_name cluster_backup_procedure_template_list = "ClusterBackupProcedureTemplateList"
type_name requested_backup_action = "RequestedBackupAction"
type_name requested_backup_action_list = "RequestedBackupActionList"
type_name scheduled_backup = "ScheduledBackup"
type_name scheduled_backup_list = "ScheduledBackupList"

abbrev pub known_types : List KnownType
known_types =
    cluster_backup_procedure_template ∷ cluster_backup_procedure_template_list
    ∷ requested_backup_action ∷ requested_backup_action_list ∷ scheduled_backup
    ∷ scheduled_backup_list ∷ []

abbrev pub kind_in : GroupVersion → KnownType → GroupVersionKind
kind_in gv t = record { group = gv.group; version = gv.version; kind = type_name t }

-- The schemes of apimachinery. `add_all` is the `AddToScheme` of a `runtime.SchemeBuilder` with these functions,
-- `add_to_group_version` the one of metav1, and `must` is `utilruntime.Must`.
pub record Schemes : Type 1 where
  pub Scheme : Type 0
  pub add_known_types : GroupVersion → List KnownType → Scheme → Scheme
  pub add_to_group_version : GroupVersion → Scheme → Scheme
  pub add_all : List (Go Scheme (Unit {0})) → Go Scheme (Unit {0})
  pub must : Go Scheme (Unit {0}) → Go Scheme (Unit {0})
  pub recognizes : GroupVersionKind → Scheme → Type 0

module _ (M : Schemes) where
  unfoldable pub add_known_types : Go M.Scheme (Unit {0})
  unfolding scheme_group_version
  add_known_types s =
      let known = M.add_known_types scheme_group_version known_types s in
      (ok tt, M.add_to_group_version scheme_group_version known)

  -- `SchemeBuilder.AddToScheme`.
  unfoldable pub add_to_scheme : Go M.Scheme (Unit {0})
  unfolding add_known_types
  add_to_scheme = M.add_all (add_known_types ∷ [])

  -- `AddToScheme` of a generated scheme, through its local builder.
  unfoldable pub add_clientset_to_scheme : Go M.Scheme (Unit {0})
  unfolding add_to_scheme
  add_clientset_to_scheme = M.add_all (add_to_scheme ∷ [])

  -- `init` of a generated scheme.
  unfoldable pub init_clientset_scheme : Go M.Scheme (Unit {0})
  unfolding add_clientset_to_scheme
  init_clientset_scheme s =
      M.must add_clientset_to_scheme
        (M.add_to_group_version (record { group = ""; version = "v1" }) s)

  -- `init` of cmd/root.go, where the other types are those of client-go.
  unfoldable pub init_controller_scheme : Go M.Scheme (Unit {0}) → Go M.Scheme (Unit {0})
  unfolding add_to_scheme
  init_controller_scheme add_client_go s = (M.must add_client_go >> M.must add_to_scheme) s
