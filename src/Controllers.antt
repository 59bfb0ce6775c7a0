-- ===== src/Controllers.antt =====
-- pkg/controllers: what a reconciler changes and returns, and the lock that each of them works under.
pub mod Lock
pub mod Health
pub mod ScheduledBackup
pub mod RequestedBackupAction
pub mod Observers
use backup_maker_controller.Prelude.{
  ℕ, String, Bool, Option, none, some, List, [], ◌∷◌, ◌++◌, Err, Res, ok, err, panic, Go,
  if◌then◌else◌,
}
use backup_maker_controller.Kube.{ObjectMeta, Request, Result, Condition}
use backup_maker_controller.Libs.{Libs}
use backup_maker_controller.Cluster.{Cluster}
use backup_maker_controller.Workspace.{Workspace}
use backup_maker_controller.Locking.{Locker, LockSession, already_locked, has_failure}
use backup_maker_controller.Domain.Aggregate.{Renderable}
use backup_maker_controller.Bmg.State.{Context, Event}

-- The two results of `Reconcile`.
pub record Reply : Type 0 where
  pub result : Result
  pub error : Option Err

abbrev pub finished : Reply
finished = record { result = record { requeue_after = 0 }; error = none }

abbrev pub requeue : ℕ → Reply
requeue seconds = record { result = record { requeue_after = seconds }; error = none }

abbrev pub failed_with : Err → Reply
failed_with e = record { result = record { requeue_after = 0 }; error = some e }

-- `metav1.Condition{Status: …, Message: …}`
abbrev pub condition_of : String → String → Condition
condition_of status message = record {
  condition_type = "";
  status = status;
  observed_generation = 0;
  last_transition_time = 0;
  reason = "";
  message = message;
}

-- The three fields that both `updateObject` and `updateObjectStatus` fill.
unfoldable pub completed_condition : ℕ → Condition → Condition
completed_condition generation c = record c {
  reason = "SpecWasUpdated";
  condition_type = "BackupObjectsInstallation";
  observed_generation = generation;
}

module _ (C : Cluster) (W : Workspace) where
  -- What a reconciler changes, beside the locks.
  pub record World : Type 0 where
    pub cluster : C.State
    pub disk : W.State
    pub events : List Event

module _ {C : Cluster} {W : Workspace} where
  -- The world as the functions of `bmg` see it, which change an aggregate.
  abbrev pub enter : Renderable → World C W → Context C W
  enter b w = record { cluster = w.cluster; disk = w.disk; events = w.events; backup = b }

  abbrev pub leave : Context C W → World C W
  leave s = record { cluster = s.cluster; disk = s.disk; events = s.events }

  abbrev pub notify : ObjectMeta → String → String → String → World C W → World C W
  notify object event_type reason message w = record w {
    events =
        w.events
        ++ record { object = object; event_type = event_type; reason = reason; message = message }
          ∷ [];
  }

  abbrev pub in_cluster : {A : Type 0} → Go C.State A → Go (World C W) A
  in_cluster m w = let (r, c) = m w.cluster in (r, record w { cluster = c })

module _ (L : Libs) (Lk : Locker) {S : Type 0} where
  -- The first statements of each `Reconcile`, and its `defer`.
  unfoldable pub under_lock : Request → Go S Reply → Go (S × Lk.State) Reply
  unfolding already_locked has_failure
  under_lock req body (w, locks) =
      let (session, locks') = Lk.obtain req locks in
      let (r, w') = body w in
      if already_locked L session
      then (ok (requeue 10), (w, locks'))
      else if has_failure L session
      then (
        ok (record { result = record { requeue_after = 0 }; error = session.error }),
        (w, locks'),
      )
      else (r, (w', Lk.done session locks'))

-- The reconciler of templates does nothing.
unfoldable pub reconcile_template : Request → Reply
reconcile_template req = finished
