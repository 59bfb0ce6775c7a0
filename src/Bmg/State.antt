-- ===== src/Bmg/State.antt =====
-- What rendering and applying change: the cluster, the disk, the events that were recorded, and the
-- aggregate that the Go code mutates behind its pointer.
use backup_maker_controller.Prelude.{
  String, Option, none, some, List, [], ◌∷◌, ◌++◌, Err, Fallible, gives, fails, Res, ok, err, panic,
  Go,
}
use backup_maker_controller.Kube.{ObjectMeta}
use backup_maker_controller.Cluster.{Cluster}
use backup_maker_controller.Workspace.{Workspace}
use backup_maker_controller.Domain.Aggregate.{Renderable}

-- A call of `recorder.Event`.
pub record Event : Type 0 where
  pub object : ObjectMeta
  pub event_type : String
  pub reason : String
  pub message : String

module _ (C : Cluster) (W : Workspace) where
  pub record Context : Type 0 where
    pub cluster : C.State
    pub disk : W.State
    pub events : List Event
    pub backup : Renderable

abbrev pub error_res : Option Err → Res (Unit {0})
error_res none = ok tt
error_res (some e) = err e

abbrev pub fallible_res : {A : Type 0} → Fallible A → Res A
fallible_res (gives a) = ok a
fallible_res (fails e) = err e

module _ {C : Cluster} {W : Workspace} where
  -- A call that changes the disk and may fail.
  abbrev pub on_disk : (W.State → Option Err × W.State) → Go (Context C W) (Unit {0})
  on_disk f s = let (e, d) = f s.disk in (error_res e, record s { disk = d })

  -- One whose error is dropped.
  abbrev pub on_disk_ : (W.State → Option Err × W.State) → Go (Context C W) (Unit {0})
  on_disk_ f s = let (e, d) = f s.disk in (ok tt, record s { disk = d })

  abbrev pub on_cluster : (C.State → Option Err × C.State) → Go (Context C W) (Unit {0})
  on_cluster f s = let (e, c) = f s.cluster in (error_res e, record s { cluster = c })

  abbrev pub gets : {A : Type 0} → (Context C W → A) → Go (Context C W) A
  gets f s = (ok (f s), s)

  abbrev pub lift : {A : Type 0} → Fallible A → Go (Context C W) A
  lift r s = (fallible_res r, s)

  -- A nil pointer that is followed panics.
  abbrev pub deref : {A : Type 0} → Option A → Go (Context C W) A
  deref none s = (panic, s)
  deref (some a) s = (ok a, s)

  abbrev pub change_backup : (Renderable → Renderable) → Go (Context C W) (Unit {0})
  change_backup f s = (ok tt, record s { backup = f s.backup })

  abbrev pub record_event : Event → Go (Context C W) (Unit {0})
  record_event e s = (ok tt, record s { events = s.events ++ e ∷ [] })
