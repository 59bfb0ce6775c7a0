-- ===== src/Factory/Aggregates/Results.antt =====
-- What the construction of an aggregate returns.
use backup_maker_controller.Prelude.{
  String, ◌≡◌, ◌≢◌, ◌⊎◌, inl, inr, refl, true, false, Option, none, some, Dict, Err, ok, arith,
  eq_iff, lookup, lookup-assign, lookup-nil, assign, assign_all, read, List, [], gives,
  if◌then◌else◌, ◌==◌, Bool-cases,
}
use backup_maker_controller.Kube.{Secret, OwnerReference}
use backup_maker_controller.Libs.{Libs}
use backup_maker_controller.Cluster.{Cluster}
use backup_maker_controller.Api.ScheduledBackup.{ScheduledBackup}
use backup_maker_controller.Api.Specs.{
  GpgKeySecretSpec, get_public_key_index, get_private_key_index, get_passphrase_index,
  get_email_index,
}
use backup_maker_controller.Gpg.{
  Crypto, or_made, should_update, generate_full_gpg_identity, create_new_gpg_secret,
  update_gpg_secret_with_recreated_gpg_key,
}
use backup_maker_controller.Domain.Aggregate.{ScheduledBackupAggregate}
use backup_maker_controller.Factory.Hydrate.{Hydrated, error_action_requeue}
use backup_maker_controller.Factory.Hydrate.Keys.{is_set, hydrate_gpg_secret-is_set}
use backup_maker_controller.Factory.Aggregates.{
  Created, finish, completed, hydrate_all, hydrate_template, hydrate_access_token,
  hydrate_vars_secret, create_scheduled_backup_aggregate, add_gpg_key, fresh_aggregate,
}

-- What a run of steps without an error has set.
pub record IsComplete (a : ScheduledBackupAggregate) : Type 0 where
  pub keys : is_set a.gpg_secret ≡ true
  pub template : is_set a.template ≡ true
  pub token : is_set a.token_secret ≡ true

module _ (L : Libs) (K : Crypto) (C : Cluster) where
  hydrate_all-IsComplete :
      (backup : ScheduledBackup) (s : C.State)
      → (hydrate_all L K C backup s).0.1 ≡ none
      → IsComplete (hydrate_all L K C backup s).0.0
  unfolding hydrate_all hydrate_template hydrate_access_token hydrate_vars_secret
  hydrate_all-IsComplete backup s h =
      ground (arith, hydrate_gpg_secret-is_set L K C (fresh_aggregate backup) s)

-- What a construction comes to: an aggregate that is complete, or an error and the wish to try again.
abbrev pub Outcome : Created ScheduledBackupAggregate → Type 0
Outcome c =
    ((c.error ≡ none) × (c.controller_action ≡ none) × IsComplete c.aggregate)
    ⊎ ((e : Err) × (c.error ≡ some e) × (c.controller_action ≡ some error_action_requeue))

finish-Outcome_of :
    (operation : String) (a : ScheduledBackupAggregate) (k : Option Secret)
    → a.gpg_secret ≡ k
    → IsComplete a
    → (c : Created ScheduledBackupAggregate) × (finish operation (a, none) ≡ ok c) × Outcome c
unfolding finish
finish-Outcome_of operation a none e h = absurd (ground (arith, h.keys, e))
finish-Outcome_of operation a (some secret) e h = (
  completed operation a secret,
  ground arith,
  inl (refl, refl, record { keys = h.keys; template = h.template; token = h.token }),
)

finish-Outcome :
    (operation : String) (h : Hydrated)
    → (h.1 ≡ none → IsComplete h.0)
    → (c : Created ScheduledBackupAggregate) × (finish operation h ≡ ok c) × Outcome c
unfolding finish
finish-Outcome operation (a, none) h = finish-Outcome_of operation a a.gpg_secret refl (h refl)
finish-Outcome operation (a, some e) h = (_, refl, inr (e, refl, refl))

module _ (L : Libs) (K : Crypto) (C : Cluster) where
  -- For every backup, operation and state of the cluster, the construction returns and does not panic:
  -- either without an error and without an action, with the template and the secrets of the keys and
  -- of the token in the aggregate, or with an error and the action that asks for a requeue.
  pub create_scheduled_backup_aggregate_returns :
      (backup : ScheduledBackup) (operation : String) (s : C.State)
      → (c : Created ScheduledBackupAggregate) × ((create_scheduled_backup_aggregate L K C backup
            operation s).0
          ≡ ok c)
        × Outcome c
  unfolding create_scheduled_backup_aggregate
  create_scheduled_backup_aggregate_returns backup operation s =
      finish-Outcome operation (hydrate_all L K C backup s).0
        (hydrate_all-IsComplete L K C backup s)

-- The variable of the key for a backup.
lookup-add_gpg_key :
    (secret : Secret) (a : ScheduledBackupAggregate) (vars : Dict String)
    → lookup "HelmValues.gpgKeyContent" (add_gpg_key "backup" secret a vars)
      ≡ some (read a.scheduled_backup.spec.gpg_key_secret_ref.public_key (or_made secret.contents))
unfolding add_gpg_key
lookup-add_gpg_key secret a vars = rw lookup-assign refl

-- An index with a default is never empty.
index_not_empty : (s d : String) → (d == "") ≡ false → ((if s == "" then d else s) == "") ≡ false
index_not_empty s d h = elim (Bool-cases (s == "")) [ inl e ↦ rw e h | inr e ↦ rw e e ]

private_index_not_empty : (spec : GpgKeySecretSpec) → (get_private_key_index spec == "") ≡ false
unfolding get_private_key_index
private_index_not_empty spec = index_not_empty spec.private_key "key" refl

passphrase_index_not_empty : (spec : GpgKeySecretSpec) → (get_passphrase_index spec == "") ≡ false
unfolding get_passphrase_index
passphrase_index_not_empty spec = index_not_empty spec.passphrase_key "passphrase" refl

module _ (K : Crypto) (name namespace email public private : String) (owners : List OwnerReference)
    (spec : GpgKeySecretSpec)
    (generated : generate_full_gpg_identity K email ≡ gives (public, private))
    (empty : spec.public_key ≡ "") (other : get_private_key_index spec ≢ "key.pub") where
  new_contents : Dict String
  new_contents = assign (get_private_key_index spec) private (
      assign "key.pub" public
        (assign (get_passphrase_index spec) "" (assign (get_email_index spec) email [])))

  contents-create_new_gpg_secret :
      or_made (create_new_gpg_secret K name namespace email owners spec).0.contents ≡ new_contents
  unfolding create_new_gpg_secret update_gpg_secret_with_recreated_gpg_key should_update assign_all
      get_public_key_index new_contents
  contents-create_new_gpg_secret = ground (arith, generated, empty, eq_iff spec.public_key "")

  lookup-new_contents : (lookup "key.pub" new_contents ≡ some public) × (read "" new_contents ≡ "")
  unfolding new_contents read
  lookup-new_contents =
      let d = assign (get_email_index spec) email [] in
      let d' = assign (get_passphrase_index spec) "" d in
      let d'' = assign "key.pub" public d' in
      ground (
        arith,
        other,
        lookup-assign "key.pub" (get_private_key_index spec) private d'',
        lookup-assign "key.pub" "key.pub" public d',
        lookup-assign "" (get_private_key_index spec) private d'',
        lookup-assign "" "key.pub" public d',
        lookup-assign "" (get_passphrase_index spec) "" d,
        lookup-assign "" (get_email_index spec) email [],
        lookup-nil {V = String} "",
        eq_iff (get_private_key_index spec) "key.pub",
        private_index_not_empty spec,
        passphrase_index_not_empty spec,
      )

-- A new secret holds its public key under the default name `key.pub` if the specification names no
-- index (and the private key has another), but the variable of a backup is read under the name that is
-- written in the specification: it is empty.
pub default_public_key_is_not_read :
    (K : Crypto) (name namespace email public private : String) (owners : List OwnerReference)
    (a : ScheduledBackupAggregate) (vars : Dict String)
    → generate_full_gpg_identity K email ≡ gives (public, private)
    → a.scheduled_backup.spec.gpg_key_secret_ref.public_key ≡ ""
    → get_private_key_index a.scheduled_backup.spec.gpg_key_secret_ref ≢ "key.pub"
    → let spec = a.scheduled_backup.spec.gpg_key_secret_ref in
      let secret = (create_new_gpg_secret K name namespace email owners spec).0 in
      (lookup (get_public_key_index spec) (or_made secret.contents) ≡ some public)
      × (lookup "HelmValues.gpgKeyContent" (add_gpg_key "backup" secret a vars) ≡ some "")
unfolding get_public_key_index
default_public_key_is_not_read K name namespace email public private owners a vars generated empty
      other =
    let spec = a.scheduled_backup.spec.gpg_key_secret_ref in
    let secret = (create_new_gpg_secret K name namespace email owners spec).0 in
    let (held, unread) =
      lookup-new_contents K name namespace email public private owners spec generated empty other in
    let same =
      contents-create_new_gpg_secret K name namespace email public private owners spec generated
        empty other in
    (
      ground (arith, same, held, empty, eq_iff spec.public_key ""),
      ground (arith, same, unread, empty, lookup-add_gpg_key secret a vars),
    )
