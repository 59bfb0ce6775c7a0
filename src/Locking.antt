-- ===== src/Locking.antt =====
-- pkg/locking: sessions and the interface `Locker` of locker.go.
pub mod InMemory
pub mod Redis
pub mod Interleaving
pub mod Contract
use backup_maker_controller.Prelude.{
  String, ◌==◌, Bool, true, false, not, Option, none, some, Err, if◌then◌else◌,
}
use backup_maker_controller.Kube.{Request}
use backup_maker_controller.Libs.{Libs}

abbrev pub err_already_locked : String
err_already_locked = "Already locked"

-- `id` is what the locker's own kind of session holds.
pub record LockSession (SessionId : Type 0) : Type 0 where
  pub id : SessionId
  pub error : Option Err

module _ {SessionId : Type 0} where
  unfoldable pub already_locked : Libs → LockSession SessionId → Bool
  already_locked L ls = elim ls.error [
    | none ↦ false
    | some e ↦ L.error_text e == err_already_locked
  ]

  unfoldable pub has_failure : Libs → LockSession SessionId → Bool
  has_failure L ls = elim ls.error [
    | none ↦ false
    | some e ↦ not (L.error_text e == err_already_locked)
  ]

  abbrev pub get_error : LockSession SessionId → Option Err
  get_error ls = ls.error

-- `close` gives up the connection of a locker that has one.
pub record Locker : Type 1 where
  pub State : Type 0
  pub SessionId : Type 0
  pub obtain : Request → State → LockSession SessionId × State
  pub done : LockSession SessionId → State → State
  pub close : State → State

unfoldable pub create_locking_id : Libs → Request → String
create_locking_id L req = L.namespaced_name_string req
