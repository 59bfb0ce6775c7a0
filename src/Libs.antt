-- ===== src/Libs.antt =====
-- The functions of other packages that the program calls, as parameters.
use backup_maker_controller.Prelude.{String, ◌≡◌, Bool, List, Err}
use backup_maker_controller.Kube.{GroupVersionKind, TypeMeta, Request, Condition}
use backup_maker_controller.Api.Specs.{ScheduledBackupSpec}

-- The pure functions of other packages, and the hashing and marshalling of Go's own.
pub record Libs : Type 0 where
  -- `err.Error()`
  pub error_text : Err → String
  -- `apierrors.IsNotFound(err)`
  pub is_not_found : Err → Bool
  -- `gvk.String()` and `obj.GroupVersionKind()`
  pub gvk_string : GroupVersionKind → String
  -- A list of kinds, as `%v` prints it.
  pub kinds_text : List GroupVersionKind → String
  pub group_version_kind : TypeMeta → GroupVersionKind
  -- What `obj.SetGroupVersionKind(gvk)` writes.
  pub type_meta_of : GroupVersionKind → TypeMeta
  -- `req.NamespacedName.String()`
  pub namespaced_name_string : Request → String
  -- `meta.SetStatusCondition(&conditions, condition)`, with the time that it reads from the clock left open.
  pub set_status_condition : List Condition → Condition → List Condition
  -- `json.Marshal(spec)` and `hex.EncodeToString(sha256.Sum256(…))`
  pub marshal_spec : ScheduledBackupSpec → String
  pub sha256_hex : String → String

-- What the code relies on: an error made of a text shows that text.
pub record IsLawful (L : Libs) : Type 0 where
  pub error_text-new : (s : String) → L.error_text (Err.new s) ≡ s
