-- ===== src/Tests/Keys.antt =====
-- Secrets with and without keys.
use backup_maker_controller.Prelude.{
  ◌==◌, ◌≡◌, ◌⊎◌, refl, ne_of_test, true, false, none, some, [], lookup, Err, new, wrap, foreign,
  gives, ok, if◌then◌else◌,
}
use backup_maker_controller.Kube.{Secret, empty_secret}
use backup_maker_controller.Api.Specs.{
  GpgKeySecretSpec, get_private_key_index, get_public_key_index, get_email_index,
}
use backup_maker_controller.Gpg.{
  generate_full_gpg_identity, should_update, update_gpg_secret_with_recreated_gpg_key,
  create_new_gpg_secret, or_made,
}
use backup_maker_controller.Gpg.Laws.{update_settles, update_keeps_keys, create_complete}
use backup_maker_controller.Domain.Aggregate.{ScheduledBackupAggregate}
use backup_maker_controller.Factory.Hydrate.Keys.{sent}
use backup_maker_controller.Factory.Aggregates.{
  Created, add_gpg_key, fresh_aggregate, create_scheduled_backup_aggregate,
}
use backup_maker_controller.Domain.Aggregate.{ScheduledBackupAggregate}
use backup_maker_controller.Factory.Aggregates.Results.{
  Outcome, create_scheduled_backup_aggregate_returns, default_public_key_is_not_read,
}
use backup_maker_controller.Tests.Samples.{
  libs, crypto, no_keys, cluster, server, Server, sample_spec, sample_backup, sample_secret,
}

abbrev spec : GpgKeySecretSpec
spec = sample_spec.gpg_key_secret_ref

update_settles_example :
    let (secret', r) =
      update_gpg_secret_with_recreated_gpg_key crypto empty_secret spec "a@b" true in
    ((r ≡ gives true) ⊎ (r ≡ gives false)) × ((should_update secret' spec).1 ≡ false)
unfolding or_made generate_full_gpg_identity
update_settles_example =
    update_settles crypto empty_secret spec "a@b" true "public a@b" "private a@b" refl refl
      (ne_of_test _ _ refl) (ne_of_test _ _ refl)

update_keeps_keys_example :
    let (secret', r) =
      update_gpg_secret_with_recreated_gpg_key crypto sample_secret spec "a@b" false in
    (r ≡ gives false)
    × (lookup "key" (or_made secret'.contents) ≡ (
        if get_email_index spec == "key"
        then some "a@b"
        else lookup "key" (or_made sample_secret.contents)))
unfolding or_made lookup get_private_key_index get_public_key_index
update_keeps_keys_example =
    update_keeps_keys crypto sample_secret spec "a@b" refl refl refl (ne_of_test _ _ refl)
      (ne_of_test _ _ refl) "key"

create_complete_example :
    let (secret, e) = create_new_gpg_secret crypto "keys" "ns" "a@b" [] spec in
    (e ≡ none)
    × (lookup (get_private_key_index spec) (or_made secret.contents) ≡ some "private a@b")
    × ((should_update secret spec).1 ≡ false)
unfolding generate_full_gpg_identity
create_complete_example =
    create_complete crypto "keys" "ns" "a@b" [] spec "public a@b" "private a@b" refl
      (ne_of_test _ _ refl) (ne_of_test _ _ refl)

abbrev no_entropy : Err
no_entropy = wrap (new "no entropy") "cannot generate key pairs"

create_scheduled_backup_aggregate_returns_example :
    (c : Created ScheduledBackupAggregate) × ((create_scheduled_backup_aggregate libs crypto cluster
        sample_backup "" server).0
      ≡ ok c)
    × Outcome c
create_scheduled_backup_aggregate_returns_example =
    create_scheduled_backup_aggregate_returns libs crypto cluster sample_backup "" server

-- A server that does not answer, and one that has no secret.
abbrev broken : Server
broken = record server { secret = (empty_secret, some (new "timeout")) }

abbrev bare : Server
bare = record server { secret = (empty_secret, some (foreign 404 "not found")) }

abbrev aggregate : ScheduledBackupAggregate
aggregate = fresh_aggregate sample_backup

abbrev creating : ScheduledBackupAggregate
creating = fresh_aggregate (record sample_backup {
  spec = record sample_spec { gpg_key_secret_ref = record spec { create_if_not_exists = true } };
})

abbrev stored : Secret
stored = sent libs no_keys cluster creating bare

default_public_key_is_not_read_example :
    let secret = (create_new_gpg_secret crypto "keys" "ns" "a@b" [] spec).0 in
    (lookup (get_public_key_index spec) (or_made secret.contents) ≡ some "public a@b")
    × (lookup "HelmValues.gpgKeyContent" (add_gpg_key "backup" secret aggregate []) ≡ some "")
unfolding generate_full_gpg_identity get_private_key_index
default_public_key_is_not_read_example =
    default_public_key_is_not_read crypto "keys" "ns" "a@b" "public a@b" "private a@b" [] aggregate
      [] refl refl (ne_of_test _ _ refl)
