-- ===== src/Bmg/Definition/Values.antt =====
-- Which value a variable of definition.yaml gets.
use backup_maker_controller.Prelude.{
  String, ◌==◌, ◌<>◌, ◌≡◌, ◌∙◌, refl, arith, Bool, Bool-cases, inl, inr, true, false, ◌||◌, Option,
  none, some, List, [], ◌∷◌, ◌++◌, Dict, last_of, lt→ltb, length, suc, All, Fallible, gives, fails,
  wrap_error, if◌then◌else◌, eq_iff,
}
use backup_maker_controller.Kube.{Secret}
use backup_maker_controller.Workspace.{Workspace}
use backup_maker_controller.Domain.Aggregate.{ScheduledBackupAggregate}
use backup_maker_controller.Bmg.Definition.{
  SourceType, additional_vars, secret, VarSource, is_skipped, additional_source, secret_source_of,
  secret_source, var_sources, set_at, set_var_at, set_entries, set_sources, merged_vars,
}

-- What the library of JSON paths documents: a value that is set at a path is read there, and what stands at
-- a path that does not overlap with it stays.
pub record HasPaths (W : Workspace) : Type 0 where
  -- What stands at a path that is written in dots.
  pub value_at : String → W.Vars → Option String
  pub are_apart : String → String → Bool
  pub set_same :
      (path value : String) (x : W.JsonPath) (vars vars' : W.Vars)
      → W.parse_path ("$." <> path) ≡ gives x
      → W.set_path x vars value ≡ gives vars'
      → value_at path vars' ≡ some value
  pub set_other :
      (path other value : String) (x : W.JsonPath) (vars vars' : W.Vars)
      → are_apart path other ≡ true
      → W.parse_path ("$." <> path) ≡ gives x
      → W.set_path x vars value ≡ gives vars'
      → value_at other vars' ≡ value_at other vars

abbrev entries_of : Option (Dict String) → Dict String
entries_of none = []
entries_of (some d) = d

additional_source-nil : additional_source [] ≡ []
unfolding additional_source
additional_source-nil = refl

additional_source-cons :
    (e : String × String) (vars : Dict String)
    → additional_source (e ∷ vars)
      ≡ record { entries = e ∷ vars; source_type = additional_vars } ∷ []
unfolding additional_source
additional_source-cons e vars = rw (lt→ltb 0 (suc (length vars)) (omega arith)) refl

secret_source_of-cons :
    (e : String × String) (d : Dict String)
    → secret_source_of (some (e ∷ d)) ≡ record { entries = e ∷ d; source_type = secret } ∷ []
unfolding secret_source_of
secret_source_of-cons e d = rw (lt→ltb 0 (suc (length d)) (omega arith)) refl

-- The entries of the secret, if there is one.
abbrev pub secret_entries : Option Secret → Dict String
secret_entries none = []
secret_entries (some s) = entries_of s.contents

module _ (W : Workspace) (H : HasPaths W) (q : String) where
  -- No variable of the map overlaps with `q`, but `q` itself.
  abbrev pub AreApart : Dict String → Type 0
  AreApart = All (λ (e : String × String). (e.0 == q || H.are_apart e.0 q) ≡ true)

  set_at-value :
      (path value : String) (parsed : Fallible W.JsonPath) (vars vars' : W.Vars)
      → W.parse_path ("$." <> path) ≡ parsed
      → (path == q || H.are_apart path q) ≡ true
      → set_at W parsed path value vars ≡ gives vars'
      → H.value_at q vars' ≡ (if path == q then some value else H.value_at q vars)
  unfolding set_at
  set_at-value path value (fails e) vars vars' parsed apart done = ground arith
  set_at-value path value (gives x) vars vars' parsed apart done =
      written (W.set_path x vars value) refl done
    where
      written :
          (r : Fallible W.Vars)
          → W.set_path x vars value ≡ r
          → wrap_error r ("cannot merge value from Secret into the vars, name: '" <> (path <> "'"))
            ≡ gives vars'
          → H.value_at q vars' ≡ (if path == q then some value else H.value_at q vars)
      written (gives v) set done =
          let set' = set ∙ done in
          elim (Bool-cases (path == q)) [
            | inl e ↦
                ground (arith, e, eq_iff path q, H.set_same path value x vars vars' parsed set')
            | inr e ↦ ground (
              arith,
              e,
              H.set_other path q value x vars vars' (ground (arith, e, apart)) parsed set',
            )
          ]
      written (fails e) set done = ground arith

  module _ (keys : List String) (source : SourceType) where
    -- One round of the loop over a map, as far as it came.
    step_value :
        (b : Bool) (path value : String) (vars vars' : W.Vars)
        → is_skipped keys source path ≡ b
        → (path == q || H.are_apart path q) ≡ true
        → (if b then gives vars else set_var_at W path value vars) ≡ gives vars'
        → H.value_at q vars' ≡ (
            if path == q
            then (if is_skipped keys source q then H.value_at q vars else some value)
            else H.value_at q vars)
    unfolding set_var_at
    step_value true path value vars vars' skipped apart done =
        ground (arith, done, skipped, eq_iff path q)
    step_value false path value vars vars' skipped apart done = ground (
      arith,
      skipped,
      eq_iff path q,
      set_at-value path value (W.parse_path ("$." <> path)) vars vars' refl apart done,
    )

    set_entries-value :
        (entries : Dict String) (vars vars' : W.Vars)
        → AreApart entries
        → set_entries W keys source entries vars ≡ gives vars'
        → H.value_at q vars' ≡ (
            if is_skipped keys source q
            then H.value_at q vars
            else last_of q (H.value_at q vars) entries)
    unfolding set_entries last_of
    set_entries-value [] vars vars' apart done = ground (arith, done)
    set_entries-value ((path, value) ∷ entries) vars vars' apart done =
        rest _ refl (λ v. set_entries-value entries v vars' apart.1) done
      where
        rest :
            (r : Fallible W.Vars)
            → (if is_skipped keys source path then gives vars else set_var_at W path value vars) ≡ r
            → ((v : W.Vars)
                → set_entries W keys source entries v ≡ gives vars'
                → H.value_at q vars' ≡ (
                    if is_skipped keys source q
                    then H.value_at q v
                    else last_of q (H.value_at q v) entries))
            → elim r [ gives v ↦ set_entries W keys source entries v | fails e ↦ fails e ]
              ≡ gives vars'
            → H.value_at q vars' ≡ (
                if is_skipped keys source q
                then H.value_at q vars
                else last_of q (if path == q then some value else H.value_at q vars) entries)
        rest (gives v) step others done = ground (
          arith,
          step_value (is_skipped keys source path) path value vars v refl apart.0 step,
          others v done,
        )
        rest (fails e) step others done = ground arith

  -- What the sources leave, one after the other.
  abbrev overridden : List String → List VarSource → Option String → Option String
  overridden keys [] o = o
  overridden keys (source ∷ sources) o =
      overridden keys sources
        (if is_skipped keys source.source_type q then o else last_of q o source.entries)

  set_sources-value :
      (keys : List String) (sources : List VarSource) (vars vars' : W.Vars)
      → All (λ (source : VarSource). AreApart source.entries) sources
      → set_sources W keys sources vars ≡ gives vars'
      → H.value_at q vars' ≡ overridden keys sources (H.value_at q vars)
  unfolding set_sources
  set_sources-value keys [] vars vars' apart done = ground (arith, done)
  set_sources-value keys (source ∷ sources) vars vars' apart done =
      rest _ refl (λ v. set_sources-value keys sources v vars' apart.1) done
    where
      rest :
          (r : Fallible W.Vars)
          → set_entries W keys source.source_type source.entries vars ≡ r
          → ((v : W.Vars)
              → set_sources W keys sources v ≡ gives vars'
              → H.value_at q vars' ≡ overridden keys sources (H.value_at q v))
          → elim r [ gives v ↦ set_sources W keys sources v | fails e ↦ fails e ] ≡ gives vars'
          → H.value_at q vars' ≡ overridden keys (source ∷ sources) (H.value_at q vars)
      rest (gives v) step others done =
          rw (← set_entries-value keys source.source_type source.entries vars v apart.0 step)
            (others v done)
      rest (fails e) step others done = ground arith

  module _ (keys : List String) (o : Option String) where
    additional-overridden :
        (vars : Dict String) (rest : List VarSource)
        → overridden keys (additional_source vars ++ rest) o
          ≡ overridden keys rest (last_of q o vars)
    unfolding is_skipped last_of
    additional-overridden [] rest = rw additional_source-nil refl
    additional-overridden (e ∷ vars) rest = rw (additional_source-cons e vars) refl

    unimported : o ≡ (if is_skipped keys secret q then o else o)
    unimported = elim (Bool-cases (is_skipped keys secret q)) [
      | inl e ↦ rw e refl
      | inr e ↦ rw e refl
    ]

    contents-overridden :
        (contents : Option (Dict String))
        → overridden keys (secret_source_of contents) o
          ≡ (if is_skipped keys secret q then o else last_of q o (entries_of contents))
    unfolding secret_source_of last_of
    contents-overridden none = unimported
    contents-overridden (some []) = unimported
    contents-overridden (some (e ∷ d)) = rw (secret_source_of-cons e d) refl

    secret-overridden :
        (from : Option Secret)
        → overridden keys (secret_source from) o
          ≡ (if is_skipped keys secret q then o else last_of q o (secret_entries from))
    unfolding secret_source last_of
    secret-overridden none = unimported
    secret-overridden (some s) = contents-overridden s.contents

  abbrev AllApart : List VarSource → Type 0
  AllApart = All (λ (source : VarSource). AreApart source.entries)

  additional-AllApart :
      (vars : Dict String) (rest : List VarSource)
      → AreApart vars
      → AllApart rest
      → AllApart (additional_source vars ++ rest)
  additional-AllApart [] rest h i = rw additional_source-nil i
  additional-AllApart (e ∷ vars) rest h i = rw (additional_source-cons e vars) (h, i)

  contents-AllApart :
      (contents : Option (Dict String))
      → AreApart (entries_of contents)
      → AllApart (secret_source_of contents)
  unfolding secret_source_of
  contents-AllApart none h = tt
  contents-AllApart (some []) h = tt
  contents-AllApart (some (e ∷ d)) h = rw (secret_source_of-cons e d) (h, tt)

  secret-AllApart :
      (from : Option Secret) → AreApart (secret_entries from) → AllApart (secret_source from)
  unfolding secret_source
  secret-AllApart none h = tt
  secret-AllApart (some s) h = contents-AllApart s.contents h

  -- What a variable of definition.yaml is in the end: the value of the secret's entry, if there is one and it is
  -- to be imported; else that of the additional variables; else what stands in the variables of the backup.
  -- This is so where no other variable of the two sources overlaps with it, whatever their order.
  pub merged_vars-value :
      (backup : ScheduledBackupAggregate) (vars vars' : W.Vars)
      → AreApart backup.additional_vars_list
      → AreApart (secret_entries backup.vars_list_secret)
      → merged_vars W backup vars ≡ gives vars'
      → let keys = backup.scheduled_backup.spec.vars_secret_ref.import_only_keys in
        let added = last_of q (H.value_at q vars) backup.additional_vars_list in
        H.value_at q vars' ≡ (
          if is_skipped keys secret q
          then added
          else last_of q added (secret_entries backup.vars_list_secret))
  unfolding merged_vars var_sources
  merged_vars-value backup vars vars' apart secret_apart done =
      let keys = backup.scheduled_backup.spec.vars_secret_ref.import_only_keys in
      let added = backup.additional_vars_list in
      let from = backup.vars_list_secret in
      set_sources-value keys (additional_source added ++ secret_source from) vars vars'
        (additional-AllApart added (secret_source from) apart (secret-AllApart from secret_apart))
        done
      ∙ additional-overridden keys (H.value_at q vars) added (secret_source from)
      ∙ secret-overridden keys (last_of q (H.value_at q vars) added) from
