-- ===== src/Controllers/ScheduledBackup/Outcomes.antt =====
-- What a round of the ScheduledBackup reconciler comes to.
use backup_maker_controller.Prelude.{
  ℕ, ◌≡◌, ◌⊎◌, inl, inr, refl, arith, Bool, true, false, Option, none, some, Err, Res, ok, err,
  panic, if◌then◌else◌, Go, Option-cases, Bool-cases, ◌==◌, subst, sym,
}
use backup_maker_controller.Kube.{Request}
use backup_maker_controller.Libs.{Libs}
use backup_maker_controller.Cluster.{Cluster}
use backup_maker_controller.Workspace.{Workspace}
use backup_maker_controller.Gpg.{Crypto}
use backup_maker_controller.Api.ScheduledBackup.{
  ScheduledBackup, has_spec_changed, needs_processing,
}
use backup_maker_controller.Domain.Aggregate.{ScheduledBackupAggregate}
use backup_maker_controller.Factory.Hydrate.{fetch_scheduled_backup}
use backup_maker_controller.Factory.Aggregates.{Created}
use backup_maker_controller.Factory.Aggregates.Results.{
  Outcome, create_scheduled_backup_aggregate_returns,
}
use backup_maker_controller.Bmg.State.{Context}
use backup_maker_controller.Controllers.{failed_with, requeue, Reply, finished, World, under_lock}
use backup_maker_controller.Locking.{
  LockSession, Locker, already_locked, has_failure, err_already_locked,
}
use backup_maker_controller.Controllers.ScheduledBackup.{
  is_requeue_action, dependencies_missing, after_apply, reconcile_aggregate, process,
  reconcile_fetched, reconcile_body, reconcile,
}

-- A reply has this error, and asks to run again after 5 or 60 seconds or not at all.
abbrev pub IsPrompt : Option Err → Res Reply → Type 0
IsPrompt e (ok reply) =
    (reply.error ≡ e)
    × ((reply.result.requeue_after ≡ 0)
        ⊎ ((reply.result.requeue_after ≡ 5) ⊎ (reply.result.requeue_after ≡ 60)))
IsPrompt e (err _) = ⊥
IsPrompt e panic = Unit

module _ (L : Libs) (C : Cluster) {W : Workspace} (backup : ScheduledBackup) where
  after_apply-IsPrompt :
      (r : Res (Unit {0})) (s : Context C W) → IsPrompt none (after_apply L C backup (r, s)).0
  unfolding after_apply
  after_apply-IsPrompt (ok _) s = (refl, inl refl)
  after_apply-IsPrompt (err e) s = (refl, inr (inr refl))
  after_apply-IsPrompt panic s = tt

  reconcile_aggregate-IsPrompt :
      (c : Created ScheduledBackupAggregate) (w : World C W)
      → Outcome c
      → IsPrompt none (reconcile_aggregate L C backup c w).0
  unfolding reconcile_aggregate dependencies_missing is_requeue_action
  reconcile_aggregate-IsPrompt c w (inl (e, a, h)) = rw e (after_apply-IsPrompt _ _)
  reconcile_aggregate-IsPrompt c w (inr (x, e, a)) = rw (e, a) (refl, inr (inl refl))

module _ (L : Libs) (K : Crypto) (C : Cluster) {W : Workspace} where
  process-IsPrompt :
      (backup : ScheduledBackup) (w : World C W) → IsPrompt none (process L K C backup w).0
  unfolding process
  process-IsPrompt backup w =
      let (c, e, h) = create_scheduled_backup_aggregate_returns L K C backup "" w.cluster in
      rw e (reconcile_aggregate-IsPrompt L C backup c _ h)

  reconcile_fetched-IsPrompt :
      (now : ℕ) (fetched : ScheduledBackup × Option Err) (w : World C W)
      → IsPrompt fetched.1 (reconcile_fetched L K C now fetched w).0
  unfolding reconcile_fetched
  reconcile_fetched-IsPrompt now (backup, some e) w = (refl, inl refl)
  reconcile_fetched-IsPrompt now (backup, none) w = prompt (needs_processing L now backup)
    where
      prompt : (b : Bool) → IsPrompt none (if b then process L K C backup w else (ok finished, w)).0
      prompt true = process-IsPrompt backup w
      prompt false = (refl, inl refl)

  -- What is done under the lock: unless it panics, it replies with the error of the fetch, if it has one, and with no other,
  -- and asks to run again after 5 or 60 seconds or not at all: never after the 15 minutes of the code.
  pub reconcile_body-IsPrompt :
      (now : ℕ) (req : Request) (w : World C W)
      → IsPrompt (fetch_scheduled_backup L K C req w.cluster).1 (reconcile_body L K C now req w).0
  unfolding reconcile_body
  reconcile_body-IsPrompt now req w =
      reconcile_fetched-IsPrompt now (fetch_scheduled_backup L K C req w.cluster) w

  module _ (now : ℕ) (req : Request) (w : World C W) (backup : ScheduledBackup)
      (fetched : fetch_scheduled_backup L K C req w.cluster ≡ (backup, none)) where
    -- A backup whose specification was applied already is left as it is.
    pub reconcile_body_idle :
        has_spec_changed L backup ≡ false → reconcile_body L K C now req w ≡ (ok finished, w)
    unfolding reconcile_body reconcile_fetched needs_processing
    reconcile_body_idle same = ground (arith, fetched, same)

  -- A failed read of the backup changes nothing.
  pub reconcile_body_unread :
      (now : ℕ) (req : Request) (w : World C W) (backup : ScheduledBackup) (e : Err)
      → fetch_scheduled_backup L K C req w.cluster ≡ (backup, some e)
      → reconcile_body L K C now req w ≡ (ok (failed_with e), w)
  unfolding reconcile_body reconcile_fetched
  reconcile_body_unread now req w backup e got = rw got refl

-- The three replies of a reconciler, by what `Obtain` returned: that of its body, that the resource is locked,
-- and the failure of the lock.
abbrev pub IsReply : {A : Type 0} → Libs → LockSession A → (Res Reply → Type 0) → Res Reply → Type 0
IsReply L session OfBody r =
    ((session.error ≡ none) × OfBody r)
    ⊎ (((already_locked L session ≡ true) × (r ≡ ok (requeue 10)))
        ⊎ ((has_failure L session ≡ true)
            × (r ≡ ok (record { result = record { requeue_after = 0 }; error = session.error }))))

under_lock-IsReply :
    (L : Libs) (Lk : Locker) {S : Type 0} (req : Request) (body : Go S Reply)
    (OfBody : Res Reply → Type 0) (w : S) (locks : Lk.State)
    → OfBody (body w).0
    → IsReply L (Lk.obtain req locks).0 OfBody (under_lock L Lk req body (w, locks)).0
unfolding under_lock already_locked has_failure
under_lock-IsReply L Lk req body OfBody w locks h =
    elim (Option-cases (Lk.obtain req locks).0.error) [
      | inl free ↦
          let same : (under_lock L Lk req body (w, locks)).0 ≡ (body w).0 = ground (arith, free) in
          inl (free, subst OfBody (sym same) h)
      | inr (e, failed) ↦ elim (Bool-cases (L.error_text e == err_already_locked)) [
        | inl locked ↦ inr (inl (ground (arith, failed, locked), ground (arith, failed, locked)))
        | inr other ↦ inr (inr (ground (arith, failed, other), ground (arith, failed, other)))
      ]
    ]

-- Every reply of the reconciler: where `Obtain` returned no error, and the work under the lock does not
-- panic, it has the error of the fetch, if there is one, and no other, and asks to run again after 5
-- or 60 seconds or not at all; where the resource is locked already it asks to run again after 10
-- seconds, without an error; and where the lock failed it has that error. It never asks to wait for
-- the 15 minutes of the code.
pub reconcile-IsPrompt :
    (L : Libs) (K : Crypto) (C : Cluster) {W : Workspace} (Lk : Locker) (now : ℕ) (req : Request)
    (w : World C W) (locks : Lk.State)
    → IsReply L
        (Lk.obtain req locks).0
        (IsPrompt (fetch_scheduled_backup L K C req w.cluster).1)
        (reconcile L K C Lk now req (w, locks)).0
unfolding reconcile
reconcile-IsPrompt L K C Lk now req w locks =
    under_lock-IsReply L Lk req (reconcile_body L K C now req)
      (IsPrompt (fetch_scheduled_backup L K C req w.cluster).1) w locks
      (reconcile_body-IsPrompt L K C now req w)
