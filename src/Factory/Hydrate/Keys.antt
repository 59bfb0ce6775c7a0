-- ===== src/Factory/Hydrate/Keys.antt =====
-- The secret of the keys, after `hydrateGPGSecret`.
use backup_maker_controller.Prelude.{
  ◌≡◌, Bool, true, false, Option, none, some, [], ◌∷◌, Err, arith,
}
use backup_maker_controller.Kube.{Secret}
use backup_maker_controller.Libs.{Libs}
use backup_maker_controller.Cluster.{Cluster}
use backup_maker_controller.Gpg.{Crypto, create_new_gpg_secret}
use backup_maker_controller.Domain.Aggregate.{ScheduledBackupAggregate}
use backup_maker_controller.Factory.Hydrate.{hydrate_gpg_secret, fetch_secret}

abbrev pub is_set {ℓ} : {A : Type ℓ} → Option A → Bool
is_set none = false
is_set (some a) = true

module _ (L : Libs) (K : Crypto) (C : Cluster) where
  -- A step that returns no error has set the secret of the keys.
  pub hydrate_gpg_secret-is_set :
      (a : ScheduledBackupAggregate) (s : C.State)
      → (hydrate_gpg_secret L K C a s).0.1 ≡ none
      → is_set (hydrate_gpg_secret L K C a s).0.0.gpg_secret ≡ true
  unfolding hydrate_gpg_secret
  hydrate_gpg_secret-is_set a s h = ground arith

  -- The step changes nothing of the backup in the aggregate.
  pub hydrate_gpg_secret-scheduled :
      (a : ScheduledBackupAggregate) (s : C.State)
      → (hydrate_gpg_secret L K C a s).0.0.scheduled_backup ≡ a.scheduled_backup
  unfolding hydrate_gpg_secret
  hydrate_gpg_secret-scheduled a s = ground arith

module _ (L : Libs) (K : Crypto) (C : Cluster) (a : ScheduledBackupAggregate) (s : C.State) where
  abbrev pub gpg_fetch : Secret × Option Err
  gpg_fetch =
      fetch_secret L K C a.scheduled_backup.spec.gpg_key_secret_ref.secret_name
        a.scheduled_backup.meta.namespace s

  -- The secret that is made where none is found.
  abbrev pub sent : Secret
  sent =
      let spec = a.scheduled_backup.spec.gpg_key_secret_ref in
      (create_new_gpg_secret K spec.secret_name a.scheduled_backup.meta.namespace spec.email
        (record {
          api_version = "v1alpha1";
          kind = "ScheduledBackup";
          name = a.scheduled_backup.meta.name;
          uid = a.scheduled_backup.meta.uid;
        }
          ∷ [])
        spec).0
