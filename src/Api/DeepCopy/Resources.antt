-- ===== src/Api/DeepCopy/Resources.antt =====
-- The deep copies of the three resources share nothing with the originals.
use backup_maker_controller.Prelude.{◌≡◌, refl}
use backup_maker_controller.Api.DeepCopy.{
  MetaV1, Store, as_it_is, BackupSlices, ActionSlices, TemplateSlices, backup_into, action_into,
  template_into,
}
use backup_maker_controller.Api.DeepCopy.Cells.{
  Extends-refl, copy_slice-elements, copy_slice-Extends,
}
use backup_maker_controller.Api.DeepCopy.Separate.{
  IsDeep, of_memory, of_strings, of_conditions, of_references, of_healths, backup_at, action_at,
  template_at, MayOverwrite, Keeps, IsSeparate,
}

module _ {M : MetaV1} (D : IsDeep M) where
  module _ (x : BackupSlices M) (s : Store M) where
    backup_into-Keeps : Keeps D s (backup_into x s).1
    unfolding backup_into
    backup_into-Keeps of_memory = D.extends x.meta s.memory
    backup_into-Keeps of_strings =
        copy_slice-Extends as_it_is x.spec.vars_secret_ref.import_only_keys s.strings
    backup_into-Keeps of_conditions =
        copy_slice-Extends M.deep_copy_condition x.status.conditions s.conditions
    backup_into-Keeps of_references =
        copy_slice-Extends as_it_is x.status.owned_references s.references
    backup_into-Keeps of_healths =
        copy_slice-Extends as_it_is x.status.children_resources_health s.healths

    backup_into-reads :
        (later : Store M)
        → MayOverwrite D s (backup_into x s).1 later
        → backup_at D later (backup_into x s).0 ≡ backup_at D s x
    unfolding backup_into
    backup_into-reads later w =
        rw
          (
            D.copied x.meta s.memory later.memory (w of_memory),
            copy_slice-elements as_it_is (λ y. refl) x.spec.vars_secret_ref.import_only_keys
                s.strings later.strings (w of_strings),
            copy_slice-elements M.deep_copy_condition D.copied_condition x.status.conditions
                s.conditions later.conditions (w of_conditions),
            copy_slice-elements as_it_is (λ y. refl) x.status.owned_references s.references
                later.references (w of_references),
            copy_slice-elements as_it_is (λ y. refl) x.status.children_resources_health s.healths
                later.healths (w of_healths),
          )
          refl

  -- The deep copy of a backup.
  pub backup_into-Separate : IsSeparate D backup_into (backup_at D)
  backup_into-Separate = record {
    reads = λ x s later w. backup_into-reads x s later w;
    keeps = λ x s. backup_into-Keeps x s;
  }

  module _ (x : ActionSlices M) (s : Store M) where
    action_into-Keeps : Keeps D s (action_into x s).1
    unfolding action_into
    action_into-Keeps of_memory = D.extends x.meta s.memory
    action_into-Keeps of_strings = Extends-refl
    action_into-Keeps of_conditions =
        copy_slice-Extends M.deep_copy_condition x.status.conditions s.conditions
    action_into-Keeps of_references =
        copy_slice-Extends as_it_is x.status.owned_references s.references
    action_into-Keeps of_healths =
        copy_slice-Extends as_it_is x.status.children_resources_health s.healths

    action_into-reads :
        (later : Store M)
        → MayOverwrite D s (action_into x s).1 later
        → action_at D later (action_into x s).0 ≡ action_at D s x
    unfolding action_into
    action_into-reads later w =
        rw
          (
            D.copied x.meta s.memory later.memory (w of_memory),
            copy_slice-elements M.deep_copy_condition D.copied_condition x.status.conditions
                s.conditions later.conditions (w of_conditions),
            copy_slice-elements as_it_is (λ y. refl) x.status.owned_references s.references
                later.references (w of_references),
            copy_slice-elements as_it_is (λ y. refl) x.status.children_resources_health s.healths
                later.healths (w of_healths),
          )
          refl

  -- The deep copy of an action.
  pub action_into-Separate : IsSeparate D action_into (action_at D)
  action_into-Separate = record {
    reads = λ x s later w. action_into-reads x s later w;
    keeps = λ x s. action_into-Keeps x s;
  }

  module _ (x : TemplateSlices M) (s : Store M) where
    template_into-Keeps : Keeps D s (template_into x s).1
    unfolding template_into
    template_into-Keeps of_memory = D.extends x.meta s.memory
    template_into-Keeps of_strings = Extends-refl
    template_into-Keeps of_conditions = Extends-refl
    template_into-Keeps of_references = Extends-refl
    template_into-Keeps of_healths = Extends-refl

    template_into-reads :
        (later : Store M)
        → MayOverwrite D s (template_into x s).1 later
        → template_at D later (template_into x s).0 ≡ template_at D s x
    unfolding template_into
    template_into-reads later w = rw (D.copied x.meta s.memory later.memory (w of_memory)) refl

  -- The deep copy of a template.
  pub template_into-Separate : IsSeparate D template_into (template_at D)
  template_into-Separate = record {
    reads = λ x s later w. template_into-reads x s later w;
    keeps = λ x s. template_into-Keeps x s;
  }
