-- ===== src/Factory/Aggregates/Identity.antt =====
-- An aggregate keeps the backup that it is made for.
use backup_maker_controller.Prelude.{
  String, ◌≡◌, refl, arith, Option, none, some, Res, ok, err, panic,
}
use backup_maker_controller.Kube.{Secret}
use backup_maker_controller.Libs.{Libs}
use backup_maker_controller.Cluster.{Cluster}
use backup_maker_controller.Gpg.{Crypto}
use backup_maker_controller.Api.ScheduledBackup.{ScheduledBackup}
use backup_maker_controller.Domain.Aggregate.{ScheduledBackupAggregate}
use backup_maker_controller.Factory.Hydrate.{Hydrated}
use backup_maker_controller.Factory.Hydrate.Keys.{hydrate_gpg_secret-scheduled}
use backup_maker_controller.Factory.Aggregates.{
  Created, finish, completed, hydrate_all, hydrate_template, hydrate_access_token,
  hydrate_vars_secret, create_scheduled_backup_aggregate, fresh_aggregate,
}

-- What was created is for the backup; a failure has nothing to say.
abbrev pub IsFor : ScheduledBackup → Res (Created ScheduledBackupAggregate) → Type 0
IsFor backup (ok c) = c.aggregate.scheduled_backup ≡ backup
IsFor backup (err e) = Unit
IsFor backup panic = Unit

finish-IsFor :
    (operation : String) (backup : ScheduledBackup) (h : Hydrated)
    → h.0.scheduled_backup ≡ backup
    → (k : Option Secret) → h.0.gpg_secret ≡ k
    → IsFor backup (finish operation h)
unfolding finish completed
finish-IsFor operation backup (a, some e) same k got = same
finish-IsFor operation backup (a, none) same none got = rw got tt
finish-IsFor operation backup (a, none) same (some secret) got = rw got same

module _ (L : Libs) (K : Crypto) (C : Cluster) where
  hydrate_all-scheduled :
      (backup : ScheduledBackup) (s : C.State)
      → (hydrate_all L K C backup s).0.0.scheduled_backup ≡ backup
  unfolding hydrate_all hydrate_template hydrate_access_token hydrate_vars_secret
  hydrate_all-scheduled backup s =
      ground (arith, hydrate_gpg_secret-scheduled L K C (fresh_aggregate backup) s)

  pub create_scheduled_backup_aggregate-IsFor :
      (backup : ScheduledBackup) (operation : String) (s : C.State)
      → IsFor backup (create_scheduled_backup_aggregate L K C backup operation s).0
  unfolding create_scheduled_backup_aggregate
  create_scheduled_backup_aggregate-IsFor backup operation s =
      let h = (hydrate_all L K C backup s).0 in
      finish-IsFor operation backup h (hydrate_all-scheduled backup s) h.0.gpg_secret refl
