-- ===== src/Controllers/Observers/Backups.antt =====
-- The rounds of the reconciler and of the observer of one backup, in any order.
use backup_maker_controller.Prelude.{
  ℕ, String, ◌≡◌, refl, ◌∙◌, arith, eq_iff, false, Option, none, some, List, [], ◌∷◌, Err, Res, ok,
  err, panic,
}
use backup_maker_controller.Kube.{Request}
use backup_maker_controller.Libs.{Libs}
use backup_maker_controller.Cluster.{Cluster}
use backup_maker_controller.Workspace.{Workspace}
use backup_maker_controller.Gpg.{Crypto}
use backup_maker_controller.Locking.{Locker}
use backup_maker_controller.Api.ScheduledBackup.{ScheduledBackup, calculate_hash, has_spec_changed}
use backup_maker_controller.Domain.Aggregate.{ScheduledBackupAggregate}
use backup_maker_controller.Factory.Hydrate.{fetch_scheduled_backup}
use backup_maker_controller.Factory.Hydrate.Frame.{IsSecretFree, Kept}
use backup_maker_controller.Factory.Fetching.{fetch_sb_aggregate}
use backup_maker_controller.Factory.Fetching.Frame.{
  IsFetchedFor, fetch_sb_aggregate-Kept, fetch_sb_aggregate-failed,
}
use backup_maker_controller.Controllers.{World}
use backup_maker_controller.Controllers.Lock.{under_lock_keeps}
use backup_maker_controller.Controllers.Health.{HealthReport}
use backup_maker_controller.Controllers.ScheduledBackup.{reconcile_body, reconcile}
use backup_maker_controller.Controllers.ScheduledBackup.Outcomes.{
  reconcile_body_idle, reconcile_body_unread,
}
use backup_maker_controller.Controllers.Observers.{
  reported_backup, save_backup, backup_attempt, observe_backup, observe_fetched_backup,
  scheduled_backup_body, observe_scheduled_backup,
}
use backup_maker_controller.Controllers.Observers.Lifecycle.{RetriesKeep, settle-keeps}

pub data BackupRound : Type 0 where
  -- With the reading of the clock.
  reconciles_at : ℕ → BackupRound
  observes_jobs : BackupRound

module _ (L : Libs) (K : Crypto) (C : Cluster) {W : Workspace} (Lk : Locker) (req : Request) where
  -- A round of either, under the lock.
  abbrev pub play : BackupRound → World C W × Lk.State → World C W × Lk.State
  play (reconciles_at now) (w, locks) = (reconcile L K C Lk now req (w, locks)).1
  play observes_jobs (w, locks) =
      let (r, (c, locks')) = observe_scheduled_backup L K C Lk req (w.cluster, locks) in
      (record w { cluster = c }, locks')

  abbrev pub play_all : List BackupRound → World C W × Lk.State → World C W × Lk.State
  play_all [] s = s
  play_all (r ∷ rs) s = play_all rs (play r s)

-- A predicate on the cluster under which every read of the backup is one whose specification has the hash that
-- its status records, and which the calls keep: a write of a Secret, a write of a status with this
-- hash, and a retry of attempts that keep it.
pub record SaysApplied (L : Libs) (K : Crypto) (C : Cluster) (req : Request) (hash : String)
    (P : C.State → Type 0) : Type 0 where
  pub secrets : IsSecretFree C P
  pub reads :
      (s : C.State) (backup : ScheduledBackup)
      → P s
      → fetch_scheduled_backup L K C req s ≡ (backup, none)
      → (backup.status.last_applied_spec_hash ≡ hash) × (calculate_hash L backup.spec ≡ hash)
  pub writes :
      (namespace : String) (backup : ScheduledBackup) (s : C.State)
      → backup.status.last_applied_spec_hash ≡ hash
      → P s
      → P (C.update_status_scheduled_backup namespace backup s).1
  pub retries : RetriesKeep C P

module _ (L : Libs) (K : Crypto) (C : Cluster) (req : Request) (hash : String)
    (P : C.State → Type 0) (M : SaysApplied L K C req hash P) where
  reads-unchanged :
      (s : C.State) (backup : ScheduledBackup)
      → P s
      → fetch_scheduled_backup L K C req s ≡ (backup, none)
      → has_spec_changed L backup ≡ false
  unfolding has_spec_changed
  reads-unchanged s backup h got =
      let (recorded, calculated) = M.reads s backup h got in
      ground (arith, recorded, calculated, eq_iff (calculate_hash L backup.spec) hash)

  -- A round of the reconciler changes nothing at all.
  reconcile_fetched-idle :
      {W : Workspace} (now : ℕ) (w : World C W) (read : ScheduledBackup × Option Err)
      → fetch_scheduled_backup L K C req w.cluster ≡ read
      → P w.cluster
      → (reconcile_body L K C now req w).1 ≡ w
  reconcile_fetched-idle {W = W} now w (backup, none) got h =
      rw
        (reconcile_body_idle L K C {W = W} now req w backup got
          (reads-unchanged w.cluster backup h got))
        refl
  reconcile_fetched-idle now w (backup, some e) got h =
      rw (reconcile_body_unread L K C now req w backup e got) refl

  save_backup-keeps :
      (backup : ScheduledBackup) (health : HealthReport) (read : ScheduledBackup × Option Err)
      (s : C.State)
      → backup.status.last_applied_spec_hash ≡ hash
      → P s
      → P (save_backup C backup health read s).1
  unfolding save_backup reported_backup
  save_backup-keeps backup health (res, none) s recorded h = M.writes _ _ s recorded h
  save_backup-keeps backup health (res, some e) s recorded h = h

  observed-keeps :
      (backup : ScheduledBackup) (r : Res ScheduledBackupAggregate × C.State)
      → backup.status.last_applied_spec_hash ≡ hash
      → Kept P r
      → IsFetchedFor backup r.0
      → P (observe_fetched_backup L C req r.0 r.1).1
  unfolding Kept observe_fetched_backup observe_backup backup_attempt
  observed-keeps backup (ok a, s) recorded h same =
      settle-keeps C P M.retries (backup_attempt C a.scheduled_backup)
        (λ health t h.
          save_backup-keeps a.scheduled_backup health (C.get_scheduled_backup _ t) t
            (rw same recorded) h)
        _ s h
  observed-keeps backup (err e, s) recorded h same = h
  observed-keeps backup (panic, s) recorded h same = h

  observer_body-keeps :
      (s : C.State) (read : ScheduledBackup × Option Err)
      → fetch_scheduled_backup L K C req s ≡ read
      → P s
      → P (scheduled_backup_body L K C req s).1
  unfolding scheduled_backup_body observe_fetched_backup
  observer_body-keeps s (backup, none) got h =
      let (frame, same) = fetch_sb_aggregate-Kept L K C P M.secrets backup req s got h in
      observed-keeps backup (fetch_sb_aggregate L K C req s) (M.reads s backup h got).0 frame same
  observer_body-keeps s (backup, some e) got h =
      rw (fetch_sb_aggregate-failed L K C P M.secrets backup req s e got) h

  -- What a round leaves, beside what it found.
  abbrev IsKept : {W : Workspace} → World C W → World C W → Type 0
  IsKept before w = (w.disk ≡ before.disk) × (w.events ≡ before.events) × P w.cluster

  module _ {W : Workspace} (Lk : Locker) where
    play-keeps :
        (r : BackupRound) (w : World C W) (locks : Lk.State)
        → P w.cluster
        → IsKept w (play L K C Lk req r (w, locks)).0
    unfolding reconcile observe_scheduled_backup
    play-keeps (reconciles_at now) w locks h =
        under_lock_keeps L Lk req (IsKept w) (reconcile_body L K C now req) w locks (refl, refl, h)
          (rw (reconcile_fetched-idle now w _ refl h) (refl, refl, h))
    play-keeps observes_jobs w locks h = (
      refl,
      refl,
      under_lock_keeps L Lk req P (scheduled_backup_body L K C req) w.cluster locks h
          (observer_body-keeps w.cluster _ refl h),
    )

    -- Once a specification is applied it stays so, and is not applied again: with every locker, whatever rounds
    -- the reconciler and the observer of the backup do, in any order and at any times, and whatever each
    -- returns, the disk and the events stay as they are, and a predicate on the cluster stays true under which
    -- each read of the backup is one whose specification has the recorded hash, if writes of Secrets,
    -- writes of a status with this hash, and retries keep it.
    pub applied_for_good :
        (rs : List BackupRound) (w : World C W) (locks : Lk.State)
        → P w.cluster
        → let w' = (play_all L K C Lk req rs (w, locks)).0 in
          (w'.disk ≡ w.disk) × (w'.events ≡ w.events) × P w'.cluster
    applied_for_good [] w locks h = (refl, refl, h)
    applied_for_good (r ∷ rs) w locks h =
        let (w', locks') = play L K C Lk req r (w, locks) in
        let (disk, events, next) = play-keeps r w locks h in
        let (disk', events', end) = applied_for_good rs w' locks' next in
        (disk' ∙ disk, events' ∙ events, end)
