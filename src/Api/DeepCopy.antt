-- ===== src/Api/DeepCopy.antt =====
-- zz_generated.deepcopy.go: the deep copies of the two resources with a status, over a store of the arrays
-- that stand behind slices. A struct is a value, and so is the target of `DeepCopyInto`.

pub mod Cells
pub mod Separate
pub mod Resources
pub mod Lists
pub mod ResourceLists
pub mod Copies
use backup_maker_controller.Prelude.{
  ℕ, zero, suc, String, Bool, Option, none, some, List, [], ◌∷◌, ◌++◌, map, take, length,
}
use backup_maker_controller.Kube.{TypeMeta, Condition}
use backup_maker_controller.Api.Specs.{
  TemplateSpec, GpgKeySecretSpec, TokenSecretSpec, CronJobSpec, RequestedBackupActionSpec,
}
use backup_maker_controller.Api.ChildReference.{ChildReference, JobHealthStatus}
use backup_maker_controller.Api.Template.{ClusterBackupProcedureTemplateSpec}

-- The methods `DeepCopyInto` of metav1.ObjectMeta and metav1.ListMeta, with the memory that their maps, slices
-- and pointers stand in, and of metav1.Condition.
pub record MetaV1 : Type 1 where
  pub Meta : Type 0
  pub ListMeta : Type 0
  pub Memory : Type 0
  pub deep_copy_meta : Meta → Memory → Meta × Memory
  pub deep_copy_list_meta : ListMeta → Memory → ListMeta × Memory
  pub deep_copy_condition : Condition → Condition

-- The arrays of one type of elements; the address of an array is its position.
abbrev pub Arrays : Type 0 → Type 0
Arrays A = List (List A)

unfoldable pub array_at : {A : Type 0} → ℕ → Arrays A → List A
array_at a [] = []
array_at zero (x ∷ h) = x
array_at (suc a) (x ∷ h) = array_at a h

-- A slice that is not nil begins at the first element of its array.
pub record Slice : Type 0 where
  pub address : ℕ
  pub length_of : ℕ

unfoldable pub elements_of : {A : Type 0} → Arrays A → Slice → List A
unfolding array_at
elements_of h s = take s.length_of (array_at s.address h)

-- `*out = make([]T, len(*in))`, and the copy of each element; the slice that is nil stays nil.
unfoldable pub copy_slice :
    {A : Type 0} → (A → A) → Option Slice → Arrays A → Option Slice × Arrays A
unfolding elements_of
copy_slice copy none h = (none, h)
copy_slice copy (some s) h = (
  some (record { address = length h; length_of = s.length_of }),
  h ++ map copy (elements_of h s) ∷ [],
)

-- `copy(*out, *in)` copies elements as they are.
abbrev pub as_it_is : {A : Type 0} → A → A
as_it_is x = x

pub record Store (M : MetaV1) : Type 0 where
  pub memory : M.Memory
  pub strings : Arrays String
  pub conditions : Arrays Condition
  pub references : Arrays ChildReference
  pub healths : Arrays JobHealthStatus

-- The structs of the API with slices in memory.
pub record VarsSecretSlice : Type 0 where
  pub secret_name : String
  pub import_only_keys : Option Slice

pub record SpecSlices : Type 0 where
  pub collection_id : String
  pub template_ref : TemplateSpec
  pub gpg_key_secret_ref : GpgKeySecretSpec
  pub token_secret_ref : TokenSecretSpec
  pub vars_secret_ref : VarsSecretSlice
  pub vars : String
  pub cron_job : CronJobSpec
  pub operation : String

pub record BackupStatusSlices : Type 0 where
  pub last_applied_spec_hash : String
  pub conditions : Option Slice
  pub owned_references : Option Slice
  pub children_resources_health : Option Slice
  pub healthy : Bool

pub record ActionStatusSlices : Type 0 where
  pub processed : Bool
  pub conditions : Option Slice
  pub owned_references : Option Slice
  pub children_resources_health : Option Slice
  pub healthy : Bool

pub record BackupSlices (M : MetaV1) : Type 0 where
  pub type_meta : TypeMeta
  pub meta : M.Meta
  pub spec : SpecSlices
  pub status : BackupStatusSlices

pub record ActionSlices (M : MetaV1) : Type 0 where
  pub type_meta : TypeMeta
  pub meta : M.Meta
  pub spec : RequestedBackupActionSpec
  pub status : ActionStatusSlices

pub record TemplateSlices (M : MetaV1) : Type 0 where
  pub type_meta : TypeMeta
  pub meta : M.Meta
  pub spec : ClusterBackupProcedureTemplateSpec

-- A list of any of the three resources.
pub record ListSlices (M : MetaV1) : Type 0 where
  pub type_meta : TypeMeta
  pub list_meta : M.ListMeta
  pub items : Option Slice

-- The store, with the arrays of the items of a list.
pub record ListStore (M : MetaV1) (A : Type 0) : Type 0 where
  pub store : Store M
  pub items : Arrays A

-- `DeepCopy`: nil for nil, and else a new struct that `DeepCopyInto` fills.
unfoldable pub deep_copy : {A S : Type 0} → (A → S → A × S) → Option A → S → Option A × S
deep_copy into none s = (none, s)
deep_copy into (some x) s = let (y, t) = into x s in (some y, t)

-- `DeepCopyObject`: the nil interface for nil.
unfoldable pub deep_copy_object : {A S : Type 0} → (A → S → A × S) → Option A → S → Option A × S
unfolding deep_copy
deep_copy_object into o s =
    let (c, t) = deep_copy into o s in (elim c [ none ↦ none | some x ↦ some x ], t)

module _ {M : MetaV1} where
  unfoldable pub vars_secret_into : VarsSecretSlice → Store M → VarsSecretSlice × Store M
  unfolding copy_slice
  vars_secret_into x s =
      let (keys, strings) = copy_slice as_it_is x.import_only_keys s.strings in
      (record x { import_only_keys = keys }, record s { strings = strings })

  unfoldable pub spec_into : SpecSlices → Store M → SpecSlices × Store M
  unfolding vars_secret_into
  spec_into x s =
      let (secret, t) = vars_secret_into x.vars_secret_ref s in
      (record x { vars_secret_ref = secret }, t)

  unfoldable pub backup_status_into : BackupStatusSlices → Store M → BackupStatusSlices × Store M
  unfolding copy_slice
  backup_status_into x s =
      let (conditions, cs) = copy_slice M.deep_copy_condition x.conditions s.conditions in
      let (owned, rs) = copy_slice as_it_is x.owned_references s.references in
      let (healths, hs) = copy_slice as_it_is x.children_resources_health s.healths in
      (
        record x {
          conditions = conditions;
          owned_references = owned;
          children_resources_health = healths;
        },
        record s { conditions = cs; references = rs; healths = hs },
      )

  unfoldable pub action_status_into : ActionStatusSlices → Store M → ActionStatusSlices × Store M
  unfolding copy_slice
  action_status_into x s =
      let (conditions, cs) = copy_slice M.deep_copy_condition x.conditions s.conditions in
      let (owned, rs) = copy_slice as_it_is x.owned_references s.references in
      let (healths, hs) = copy_slice as_it_is x.children_resources_health s.healths in
      (
        record x {
          conditions = conditions;
          owned_references = owned;
          children_resources_health = healths;
        },
        record s { conditions = cs; references = rs; healths = hs },
      )

  meta_into : M.Meta → Store M → M.Meta × Store M
  meta_into x s = let (y, memory) = M.deep_copy_meta x s.memory in (y, record s { memory = memory })

  unfoldable pub backup_into : BackupSlices M → Store M → BackupSlices M × Store M
  unfolding meta_into spec_into backup_status_into
  backup_into x s =
      let (meta, s1) = meta_into x.meta s in
      let (spec, s2) = spec_into x.spec s1 in
      let (status, s3) = backup_status_into x.status s2 in
      (record x { meta = meta; spec = spec; status = status }, s3)

  unfoldable pub action_into : ActionSlices M → Store M → ActionSlices M × Store M
  unfolding meta_into action_status_into
  action_into x s =
      let (meta, s1) = meta_into x.meta s in
      let (status, s2) = action_status_into x.status s1 in
      (record x { meta = meta; status = status }, s2)

  unfoldable pub template_into : TemplateSlices M → Store M → TemplateSlices M × Store M
  unfolding meta_into
  template_into x s = let (meta, t) = meta_into x.meta s in (record x { meta = meta }, t)

  module _ {A : Type 0} (into : A → Store M → A × Store M) where
    -- `for i := range *in { (*in)[i].DeepCopyInto(&(*out)[i]) }`
    unfoldable pub each_into : List A → Store M → List A × Store M
    each_into [] s = ([], s)
    each_into (x ∷ xs) s = let (y, t) = into x s in let (ys, u) = each_into xs t in (y ∷ ys, u)

    unfoldable pub items_into : Option Slice → ListStore M A → Option Slice × ListStore M A
    unfolding each_into elements_of
    items_into none s = (none, s)
    items_into (some items) s =
        let (ys, t) = each_into (elements_of s.items items) s.store in
        (
          some (record { address = length s.items; length_of = items.length_of }),
          record { store = t; items = s.items ++ ys ∷ [] },
        )

    list_meta_into : M.ListMeta → ListStore M A → M.ListMeta × ListStore M A
    list_meta_into x s =
        let (y, memory) = M.deep_copy_list_meta x s.store.memory in
        (y, record s { store = record s.store { memory = memory } })

    unfoldable pub list_into : ListSlices M → ListStore M A → ListSlices M × ListStore M A
    unfolding list_meta_into items_into
    list_into x s =
        let (list_meta, t) = list_meta_into x.list_meta s in
        let (items, u) = items_into x.items t in
        (record x { list_meta = list_meta; items = items }, u)
