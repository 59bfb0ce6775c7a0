-- ===== src/Api/DeepCopy/Copies.antt =====
-- zz_generated.deepcopy.go: `DeepCopy` and `DeepCopyObject` of each type, which take a pointer.
use backup_maker_controller.Prelude.{Option}
use backup_maker_controller.Api.Specs.{
  TemplateSpec, GpgKeySecretSpec, TokenSecretSpec, CronJobSpec, BackupRefSpec,
  RequestedBackupActionSpec,
}
use backup_maker_controller.Api.ChildReference.{ChildReference, JobHealthStatus}
use backup_maker_controller.Api.Template.{ClusterBackupProcedureTemplateSpec}
use backup_maker_controller.Api.DeepCopy.{
  MetaV1, Slice, copy_slice, as_it_is, Store, VarsSecretSlice, SpecSlices, BackupStatusSlices,
  ActionStatusSlices, BackupSlices, ActionSlices, TemplateSlices, ListSlices, ListStore, deep_copy,
  deep_copy_object, vars_secret_into, spec_into, backup_status_into, action_status_into,
  backup_into, action_into, template_into, list_into,
}

-- `DeepCopyInto` of a struct without pointers: `*out = *in`.
unfoldable pub struct_into : {A S : Type 0} → A → S → A × S
struct_into x s = (x, s)

module _ (M : MetaV1) where
  -- A pointer to a type, and the store, before and after a copy.
  abbrev pub Copy : Type 0 → Type 0
  Copy A = Option A → Store M → Option A × Store M

  abbrev pub backup_ref_spec_deep_copy : Copy BackupRefSpec
  backup_ref_spec_deep_copy = deep_copy struct_into

  abbrev pub child_reference_deep_copy : Copy ChildReference
  child_reference_deep_copy = deep_copy struct_into

  -- The receiver is the slice itself.
  unfoldable pub children_references_deep_copy : Copy Slice
  unfolding copy_slice
  children_references_deep_copy refs s =
      let (copied, references) = copy_slice as_it_is refs s.references in
      (copied, record s { references = references })

  abbrev pub template_spec_deep_copy : Copy ClusterBackupProcedureTemplateSpec
  template_spec_deep_copy = deep_copy struct_into

  abbrev pub cron_job_spec_deep_copy : Copy CronJobSpec
  cron_job_spec_deep_copy = deep_copy struct_into

  abbrev pub gpg_key_secret_spec_deep_copy : Copy GpgKeySecretSpec
  gpg_key_secret_spec_deep_copy = deep_copy struct_into

  abbrev pub job_health_status_deep_copy : Copy JobHealthStatus
  job_health_status_deep_copy = deep_copy struct_into

  abbrev pub action_spec_deep_copy : Copy RequestedBackupActionSpec
  action_spec_deep_copy = deep_copy struct_into

  abbrev pub template_ref_deep_copy : Copy TemplateSpec
  template_ref_deep_copy = deep_copy struct_into

  abbrev pub token_secret_spec_deep_copy : Copy TokenSecretSpec
  token_secret_spec_deep_copy = deep_copy struct_into

  abbrev pub vars_secret_deep_copy : Copy VarsSecretSlice
  vars_secret_deep_copy = deep_copy vars_secret_into

  abbrev pub spec_deep_copy : Copy SpecSlices
  spec_deep_copy = deep_copy spec_into

  abbrev pub backup_status_deep_copy : Copy BackupStatusSlices
  backup_status_deep_copy = deep_copy backup_status_into

  abbrev pub action_status_deep_copy : Copy ActionStatusSlices
  action_status_deep_copy = deep_copy action_status_into

  abbrev pub backup_deep_copy_object : Copy (BackupSlices M)
  backup_deep_copy_object = deep_copy_object backup_into

  abbrev pub action_deep_copy_object : Copy (ActionSlices M)
  action_deep_copy_object = deep_copy_object action_into

  abbrev pub template_deep_copy_object : Copy (TemplateSlices M)
  template_deep_copy_object = deep_copy_object template_into

  -- A pointer to a list of a resource, and the store of the list.
  abbrev pub ListCopy : Type 0 → Type 0
  ListCopy A = Option (ListSlices M) → ListStore M A → Option (ListSlices M) × ListStore M A

  abbrev pub backup_list_deep_copy_object : ListCopy (BackupSlices M)
  backup_list_deep_copy_object = deep_copy_object (list_into backup_into)

  abbrev pub action_list_deep_copy_object : ListCopy (ActionSlices M)
  action_list_deep_copy_object = deep_copy_object (list_into action_into)

  abbrev pub template_list_deep_copy_object : ListCopy (TemplateSlices M)
  template_list_deep_copy_object = deep_copy_object (list_into template_into)
