-- ===== src/Tests/Copying.antt =====
-- A list of two backups that import the keys of one array, which is overwritten after the copy.
use mathlib.Core.Option
use backup_maker_controller.Prelude.{
  zero, suc, ℕ, ◌≤◌, ◌≡◌, refl, ap, arith, false, Option, none, some, List, [], ◌∷◌,
}
use backup_maker_controller.Kube.{ObjectMeta, empty_meta, empty_type}
use backup_maker_controller.Api.Specs.{empty_spec}
use backup_maker_controller.Api.DeepCopy.{
  MetaV1, Arrays, Slice, array_at, elements_of, copy_slice, as_it_is, BackupSlices, ListSlices,
  ListStore, backup_into, list_into, items_into, each_into, deep_copy_object,
}
use backup_maker_controller.Api.DeepCopy.Cells.{
  cells_of, elements, Extends-refl, copy_slice-elements, copy_slice-Extends,
}
use backup_maker_controller.Api.DeepCopy.Separate.{
  IsDeep, of_memory, of_strings, of_conditions, of_references, of_healths, IsIn, MayOverwrite,
  backup_at,
}
use backup_maker_controller.Api.DeepCopy.Lists.{list_at, MayOverwriteList, KeepsList}
use backup_maker_controller.Api.DeepCopy.ResourceLists.{backups, resource_list-Separate}

abbrev first_of : List ObjectMeta → ObjectMeta
first_of [] = empty_meta
first_of (meta ∷ rest) = meta

-- Metadata behind a pointer.
abbrev pointers : MetaV1
pointers = record {
  Meta = Option Slice;
  ListMeta = Unit {0};
  Memory = Arrays ObjectMeta;
  deep_copy_meta = copy_slice as_it_is;
  deep_copy_list_meta = λ meta memory. (meta, memory);
  deep_copy_condition = λ c. c;
}

abbrev pointers-IsDeep : IsDeep pointers
pointers-IsDeep = record {
  Cell = List ObjectMeta;
  cells = cells_of;
  meta_at = λ memory meta. first_of (elements memory meta);
  ListMetaValue = Unit {0};
  list_meta_at = λ memory meta. meta;
  copied = λ meta memory later since.
      ap first_of (copy_slice-elements as_it_is (λ x. refl) meta memory later since);
  extends = λ meta memory. copy_slice-Extends as_it_is meta memory;
  copied_list = λ meta memory later since. refl;
  extends_list = λ meta memory. Extends-refl;
  copied_condition = λ c. refl;
}

abbrev backup : BackupSlices pointers
backup = record {
  type_meta = empty_type;
  meta = some (record { address = 0; length_of = 1 });
  spec = record {
    collection_id = "c1";
    template_ref = empty_spec.template_ref;
    gpg_key_secret_ref = empty_spec.gpg_key_secret_ref;
    token_secret_ref = empty_spec.token_secret_ref;
    vars_secret_ref = record {
      secret_name = "vars";
      import_only_keys = some (record { address = 0; length_of = 2 });
    };
    vars = "";
    cron_job = empty_spec.cron_job;
    operation = "backup";
  };
  status = record {
    last_applied_spec_hash = "";
    conditions = none;
    owned_references = none;
    children_resources_health = none;
    healthy = false;
  };
}

abbrev list : ListSlices pointers
list = record {
  type_meta = empty_type;
  list_meta = tt;
  items = some (record { address = 0; length_of = 2 });
}

abbrev before : ListStore pointers (BackupSlices pointers)
before = record {
  store = record {
    memory = (record empty_meta { name = "b1" } ∷ []) ∷ [];
    strings = ("host" ∷ "port" ∷ []) ∷ [];
    conditions = [];
    references = [];
    healths = [];
  };
  items = (backup ∷ backup ∷ []) ∷ [];
}

abbrev copied : Option (ListSlices pointers) × ListStore pointers (BackupSlices pointers)
copied = deep_copy_object (list_into backup_into) (some list) before

abbrev overwrite_first : {A : Type 0} → List A → Arrays A → Arrays A
overwrite_first x [] = []
overwrite_first x (y ∷ h) = x ∷ h

-- The keys, the metadata and the items of the original are gone.
abbrev afterwards : ListStore pointers (BackupSlices pointers)
afterwards = record {
  store = record copied.1.store {
    memory = overwrite_first [] copied.1.store.memory;
    strings = overwrite_first ("x" ∷ "y" ∷ []) copied.1.store.strings;
  };
  items = overwrite_first [] copied.1.items;
}

list_overwritten :
    MayOverwriteList pointers-IsDeep backup_into
      (backup_at pointers-IsDeep)
      before
      copied.1
      afterwards
unfolding deep_copy_object list_into items_into each_into elements_of array_at backup_into
    copy_slice
list_overwritten = (overwritten, λ a above below. kept a above)
  where
    overwritten : MayOverwrite pointers-IsDeep before.store copied.1.store afterwards.store
    overwritten of_memory zero above below = ground arith
    overwritten of_memory (suc a) above below = refl
    overwritten of_strings zero above below = ground arith
    overwritten of_strings (suc a) above below = refl
    overwritten of_conditions a above below = refl
    overwritten of_references a above below = refl
    overwritten of_healths a above below = refl

    kept : (a : ℕ) → 1 ≤ a → array_at a afterwards.items ≡ array_at a copied.1.items
    kept zero above = ground arith
    kept (suc a) above = refl

backup-IsIn : IsIn pointers-IsDeep (backup_at pointers-IsDeep) before.store backup
unfolding elements_of array_at
backup-IsIn t h = rw ((h of_memory).1 0 (omega arith), (h of_strings).1 0 (omega arith)) refl

resource_list-Separate_example :
    (Option.map
        (list_at pointers-IsDeep backup_into (backup_at pointers-IsDeep) afterwards)
        copied.0
      ≡ Option.map
          (list_at pointers-IsDeep backup_into (backup_at pointers-IsDeep) before)
          (some list))
    × KeepsList pointers-IsDeep backup_into (backup_at pointers-IsDeep) before copied.1
unfolding elements_of
resource_list-Separate_example =
    resource_list-Separate pointers-IsDeep backups (some list) before afterwards
      (backup-IsIn, (backup-IsIn, tt)) list_overwritten
