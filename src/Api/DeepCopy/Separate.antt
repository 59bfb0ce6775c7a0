-- ===== src/Api/DeepCopy/Separate.antt =====
-- A deep copy shares nothing with the original.
use backup_maker_controller.Prelude.{◌≡◌, List, String}
use backup_maker_controller.Kube.{ObjectMeta, Condition}
use backup_maker_controller.Api.Specs.{ScheduledBackupSpec}
use backup_maker_controller.Api.ChildReference.{ChildReference, JobHealthStatus}
use backup_maker_controller.Api.ScheduledBackup.{ScheduledBackupStatus, ScheduledBackup}
use backup_maker_controller.Api.RequestedBackupAction.{
  RequestedBackupActionStatus, RequestedBackupAction,
}
use backup_maker_controller.Api.Template.{ClusterBackupProcedureTemplate}
use backup_maker_controller.Api.DeepCopy.{
  MetaV1, Store, SpecSlices, BackupStatusSlices, ActionStatusSlices, BackupSlices, ActionSlices,
  TemplateSlices,
}
use backup_maker_controller.Api.DeepCopy.Cells.{
  Cells, cells_of, elements, SameSince, Extends, Extends-trans, SameSince-first, SameSince-second,
}

-- What apimachinery documents: a condition is copied as it is, and a copy of metadata adds to the memory what it
-- is made of, and reads as the metadata did, whatever happened to what was there before.
pub record IsDeep (M : MetaV1) : Type 1 where
  pub Cell : Type 0
  pub cells : M.Memory → Cells Cell
  pub meta_at : M.Memory → M.Meta → ObjectMeta
  pub ListMetaValue : Type 0
  pub list_meta_at : M.Memory → M.ListMeta → ListMetaValue
  pub copied :
      (x : M.Meta) (memory later : M.Memory)
      → SameSince (cells memory) (cells (M.deep_copy_meta x memory).1) (cells later)
      → meta_at later (M.deep_copy_meta x memory).0 ≡ meta_at memory x
  pub extends :
      (x : M.Meta) (memory : M.Memory)
      → Extends (cells memory) (cells (M.deep_copy_meta x memory).1)
  pub copied_list :
      (x : M.ListMeta) (memory later : M.Memory)
      → SameSince (cells memory) (cells (M.deep_copy_list_meta x memory).1) (cells later)
      → list_meta_at later (M.deep_copy_list_meta x memory).0 ≡ list_meta_at memory x
  pub extends_list :
      (x : M.ListMeta) (memory : M.Memory)
      → Extends (cells memory) (cells (M.deep_copy_list_meta x memory).1)
  pub copied_condition : (c : Condition) → M.deep_copy_condition c ≡ c

-- The parts of a store.
pub data Part : Type 0 where
  of_memory : Part
  of_strings : Part
  of_conditions : Part
  of_references : Part
  of_healths : Part

module _ {M : MetaV1} (D : IsDeep M) where
  abbrev pub spec_at : Store M → SpecSlices → ScheduledBackupSpec
  spec_at s x = record {
    collection_id = x.collection_id;
    template_ref = x.template_ref;
    gpg_key_secret_ref = x.gpg_key_secret_ref;
    token_secret_ref = x.token_secret_ref;
    vars_secret_ref = record {
      secret_name = x.vars_secret_ref.secret_name;
      import_only_keys = elements s.strings x.vars_secret_ref.import_only_keys;
    };
    vars = x.vars;
    cron_job = x.cron_job;
    operation = x.operation;
  }

  abbrev pub backup_status_at : Store M → BackupStatusSlices → ScheduledBackupStatus
  backup_status_at s x = record {
    last_applied_spec_hash = x.last_applied_spec_hash;
    conditions = elements s.conditions x.conditions;
    owned_references = elements s.references x.owned_references;
    children_resources_health = elements s.healths x.children_resources_health;
    healthy = x.healthy;
  }

  abbrev pub action_status_at : Store M → ActionStatusSlices → RequestedBackupActionStatus
  action_status_at s x = record {
    processed = x.processed;
    conditions = elements s.conditions x.conditions;
    owned_references = elements s.references x.owned_references;
    children_resources_health = elements s.healths x.children_resources_health;
    healthy = x.healthy;
  }

  abbrev pub backup_at : Store M → BackupSlices M → ScheduledBackup
  backup_at s x = record {
    type_meta = x.type_meta;
    meta = D.meta_at s.memory x.meta;
    spec = spec_at s x.spec;
    status = backup_status_at s x.status;
  }

  abbrev pub action_at : Store M → ActionSlices M → RequestedBackupAction
  action_at s x = record {
    type_meta = x.type_meta;
    meta = D.meta_at s.memory x.meta;
    spec = x.spec;
    status = action_status_at s x.status;
  }

  abbrev pub template_at : Store M → TemplateSlices M → ClusterBackupProcedureTemplate
  template_at s x = record {
    type_meta = x.type_meta;
    meta = D.meta_at s.memory x.meta;
    spec = x.spec;
  }

  abbrev pub CellOf : Part → Type 0
  CellOf of_memory = D.Cell
  CellOf of_strings = List String
  CellOf of_conditions = List Condition
  CellOf of_references = List ChildReference
  CellOf of_healths = List JobHealthStatus

  -- A part of the store, as numbered cells.
  abbrev pub part : (i : Part) → Store M → Cells (CellOf i)
  part of_memory s = D.cells s.memory
  part of_strings s = cells_of s.strings
  part of_conditions s = cells_of s.conditions
  part of_references s = cells_of s.references
  part of_healths s = cells_of s.healths

  -- The store `s` became `t` by a copy, and is `later` now: what the copy added is as it was, and what there
  -- was before may have been overwritten.
  abbrev pub MayOverwrite : Store M → Store M → Store M → Type 0
  MayOverwrite s t later = (i : Part) → SameSince (part i s) (part i t) (part i later)

  -- All that `s` has is in `t` as it was.
  abbrev pub Keeps : Store M → Store M → Type 0
  Keeps s t = (i : Part) → Extends (part i s) (part i t)

  pub Keeps-trans : (s t u : Store M) → Keeps s t → Keeps t u → Keeps s u
  Keeps-trans s t u h h' i = Extends-trans (part i s) (part i t) (part i u) (h i) (h' i)

  module _ (s t u later : Store M) (w : MayOverwrite s u later) where
    -- Of two copies, the first and the second one.
    pub MayOverwrite-first : Keeps t u → MayOverwrite s t later
    MayOverwrite-first h i =
        SameSince-first (part i s) (part i t) (part i u) (part i later) (h i) (w i)

    pub MayOverwrite-second : Keeps s t → MayOverwrite t u later
    MayOverwrite-second h i =
        SameSince-second (part i s) (part i t) (part i u) (part i later) (h i) (w i)

  -- What a deep copy has to do: the copy reads as the original did when it was made, whatever is written
  -- afterwards to what there was before; and making it writes to nothing of that.
  pub record IsSeparate {A V : Type 0} (into : A → Store M → A × Store M) (at : Store M → A → V)
      : Type 0 where
    pub reads :
        (x : A) (s later : Store M)
        → MayOverwrite s (into x s).1 later
        → at later (into x s).0 ≡ at s x
    pub keeps : (x : A) (s : Store M) → Keeps s (into x s).1

  -- What a copy of `x` may rely on: what is added to the store changes nothing of what `x` reads as.
  abbrev pub IsIn : {A V : Type 0} → (Store M → A → V) → Store M → A → Type 0
  IsIn at s x = (t : Store M) → Keeps s t → at t x ≡ at s x
