-- ===== src/Api/Template.antt =====
-- clusterbackupproceduretemplate_types.go, and pkg/domain's template.go and internaltemplate.go: where
-- the image and the scripts of a procedure come from. The Go interface `domain.Template` has two
-- implementations, which are the two constructors.
use backup_maker_controller.Prelude.{String, Bool, true, false}
use backup_maker_controller.Kube.{TypeMeta, ObjectMeta, empty_type, empty_meta}

pub record ClusterBackupProcedureTemplateSpec : Type 0 where
  pub image : String
  pub backup : String
  pub restore : String

pub record ClusterBackupProcedureTemplate : Type 0 where
  pub type_meta : TypeMeta
  pub meta : ObjectMeta
  pub spec : ClusterBackupProcedureTemplateSpec

abbrev pub empty_template : ClusterBackupProcedureTemplate
empty_template = record {
  type_meta = empty_type;
  meta = empty_meta;
  spec = record { image = ""; backup = ""; restore = "" };
}

abbrev pub internal_template_kind : String
internal_template_kind = "internal"

pub record InternalTemplate : Type 0 where
  pub name : String

pub data Template : Type 0 where
  cluster : ClusterBackupProcedureTemplate → Template
  internal : InternalTemplate → Template

unfoldable pub get_image : Template → String
get_image (cluster t) = t.spec.image
get_image (internal it) = ""

unfoldable pub get_backup_script : Template → String
get_backup_script (cluster t) = t.spec.backup
get_backup_script (internal it) = ""

unfoldable pub get_restore_script : Template → String
get_restore_script (cluster t) = t.spec.restore
get_restore_script (internal it) = ""

unfoldable pub provides_script : Template → Bool
provides_script (cluster t) = true
provides_script (internal it) = false

unfoldable pub get_name : Template → String
get_name (cluster t) = t.meta.name
get_name (internal it) = it.name
