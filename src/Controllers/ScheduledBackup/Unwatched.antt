-- ===== src/Controllers/ScheduledBackup/Unwatched.antt =====
-- What the observer sees of the objects that were applied for a ScheduledBackup.
use backup_maker_controller.Prelude.{
  ℕ, ◌+◌, ◌<◌, ◌≡◌, refl, subst, ap, ◌∙◌, arith, true, none, List, [], ◌∷◌, All, length, Res, ok,
}
use backup_maker_controller.Kube.{Request, TypeMeta, Unstructured}
use backup_maker_controller.Libs.{Libs}
use backup_maker_controller.Cluster.{Cluster, RetryStops}
use backup_maker_controller.Workspace.{Workspace}
use backup_maker_controller.Api.ChildReference.{ChildrenReferences}
use backup_maker_controller.Api.ScheduledBackup.{ScheduledBackup, ScheduledBackupStatus}
use backup_maker_controller.Domain.Aggregate.{
  ScheduledBackupAggregate, scheduled_one, get_scheduled_backup,
}
use backup_maker_controller.Factory.Aggregates.{Created}
use backup_maker_controller.Bmg.State.{Context}
use backup_maker_controller.Bmg.Apply.{apply_objects}
use backup_maker_controller.Bmg.Apply.Whole.{apply_objects-HasApplied}
use backup_maker_controller.Bmg.Apply.Tracking.{owned, Recorded, owned-apply_each}
use backup_maker_controller.Controllers.{finished, World, enter, leave}
use backup_maker_controller.Controllers.Health.Report.{nothing_seen}
use backup_maker_controller.Controllers.Observers.{reported_backup, observe_backup}
use backup_maker_controller.Controllers.Observers.Unowned.{observe_backup-unowned}
use backup_maker_controller.Controllers.ScheduledBackup.{
  updated_object, update_object, after_apply, reconcile_aggregate,
}
use backup_maker_controller.Controllers.ScheduledBackup.Applied.{working, succeeded}
use backup_maker_controller.Controllers.ScheduledBackup.Status.{
  updated_object-owned, update_object_saves,
}

have_any_types : (docs : List Unstructured) → All (λ (doc : Unstructured). Unit {0}) docs
have_any_types [] = tt
have_any_types (doc ∷ docs) = (tt, have_any_types docs)

module _ (L : Libs) (C : Cluster) where
  -- An application without an error adds a reference at least.
  applied_owns_more :
      (W : Workspace) (s t : Context C W)
      → apply_objects L C W s ≡ (ok tt, t)
      → owned s.backup < owned t.backup
  applied_owns_more W s t done =
      let (docs, s', _, some_docs, same, applied) =
        apply_objects-HasApplied L C W (λ (type_meta : TypeMeta). Unit {0}) s t
          (λ docs e. have_any_types docs) done in
      let (n, more, recorded) =
        subst
          (λ (end : Res (Unit {0}) × Context C W).
            (n : ℕ) × (owned end.1.backup ≡ n + owned s'.backup) × Recorded (length docs) n end.0)
          applied (owned-apply_each L C W docs s') in
      omega (arith, some_docs, more, recorded, ap (λ (refs : ChildrenReferences). length refs) same)

  module _ (W : Workspace) (backup : ScheduledBackup) (c : Created ScheduledBackupAggregate)
      (hydrated : c.error ≡ none) (w : World C W) (stops : RetryStops C) where
    -- What is applied for a ScheduledBackup is never observed: a hydrated backup is applied without an error,
    -- its status is fetched, with no reference to owned objects, and written, and the retry stops at
    -- a success. Later, in any state of the jobs, the observer finds a backup with the written
    -- status, which it fetches, and its write is accepted. Then the reconciler was finished, the
    -- aggregate had gathered references to applied objects, one at least, and the observer ends with
    -- the status it wrote, which says that the backup is healthy and has an empty report.
    pub applied_backup_is_unwatched :
        (s : Context C W) (res : ScheduledBackup) (d : C.State)
        → apply_objects L C W (
            enter
              (scheduled_one c.aggregate)
              (update_object L C c.aggregate.scheduled_backup working w))
          ≡ (ok tt, s)
        → C.get_scheduled_backup
            (record {
              namespace = (get_scheduled_backup s.backup).meta.namespace;
              name = (get_scheduled_backup s.backup).meta.name;
            })
            s.cluster
          ≡ (res, none)
        → C.update_status_scheduled_backup
            (get_scheduled_backup s.backup).meta.namespace
            (updated_object L (get_scheduled_backup s.backup) succeeded res)
            s.cluster
          ≡ (none, d)
        → res.status.owned_references ≡ []
        → (b : ScheduledBackupAggregate) (req : Request) (now : C.State)
        → b.scheduled_backup.status
          ≡ (updated_object L (get_scheduled_backup s.backup) succeeded res).status
        → (res' : ScheduledBackup)
        → C.get_scheduled_backup
            (record {
              namespace = b.scheduled_backup.meta.namespace;
              name = b.scheduled_backup.meta.name;
            })
            now
          ≡ (res', none)
        → (d' : C.State)
        → C.update_status_scheduled_backup b.scheduled_backup.meta.namespace
            (reported_backup b.scheduled_backup nothing_seen res')
            now
          ≡ (none, d')
        → let (r, w') = reconcile_aggregate L C backup c w in
          (r ≡ ok finished)
          × (w'.cluster ≡ d)
          × (owned (scheduled_one c.aggregate) < owned s.backup)
          × (observe_backup L C req b now ≡ (ok finished, d'))
          × ((reported_backup b.scheduled_backup nothing_seen res').status.healthy ≡ true)
          × ((reported_backup b.scheduled_backup nothing_seen res').status.children_resources_health
              ≡ [])
    unfolding reconcile_aggregate after_apply reported_backup
    applied_backup_is_unwatched s res d applied got saved fresh b req now seen res' got' d' saved' =
        let x = get_scheduled_backup s.backup in
        let stored =
          update_object_saves L C x succeeded s.cluster res d got saved stops (leave s) refl in
        let none_owned : b.scheduled_backup.status.owned_references ≡ [] =
          ap (λ (status : ScheduledBackupStatus). status.owned_references) seen
          ∙ updated_object-owned L x res succeeded
          ∙ fresh in
        (
          rw (hydrated, applied) refl,
          rw (hydrated, applied) (ap (λ (v : World C W). v.cluster) stored),
          applied_owns_more W _ s applied,
          observe_backup-unowned L C stops req b now none_owned res' got' d' saved',
          refl,
          refl,
        )
