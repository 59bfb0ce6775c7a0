-- ===== src/Locking/Contract.antt =====
-- What locker.go promises of every `Locker`: a table that says which session owns an identifier, and how
-- `Obtain` and `Done` change it.
pub mod InMemory
use backup_maker_controller.Prelude.{
  String, ◌==◌, ◌≡◌, Bool, true, false, Option, none, some, Err, if◌then◌else◌,
}
use backup_maker_controller.Kube.{Request}
use backup_maker_controller.Libs.{Libs}
use backup_maker_controller.Locking.{LockSession, Locker, create_locking_id}

-- An identifier that the session owns is given up.
abbrev pub cleared : {A : Type 0} → (A → Bool) → Option A → Option A
cleared mine none = none
cleared mine (some a) = if mine a then none else some a

pub record IsLocker (L : Libs) (Lk : Locker) : Type 1 where
  -- The states that the calls can lead to.
  pub IsValid : Lk.State → Type 0
  pub owner : Lk.State → String → Option Lk.SessionId
  pub same : Lk.SessionId → Lk.SessionId → Bool
  pub same_refl : (a : Lk.SessionId) → same a a ≡ true
  pub obtain-IsValid : (req : Request) (s : Lk.State) → IsValid s → IsValid (Lk.obtain req s).1
  pub done-IsValid :
      (session : LockSession Lk.SessionId) (s : Lk.State) → IsValid s → IsValid (Lk.done session s)
  -- A session is granted only where nobody owns the identifier, and it is a new one.
  pub excluded :
      (req : Request) (s : Lk.State)
      → IsValid s
      → (Lk.obtain req s).0.error ≡ none
      → owner s (create_locking_id L req) ≡ none
  pub fresh :
      (req : Request) (s : Lk.State) (k : String) (a : Lk.SessionId)
      → IsValid s
      → (Lk.obtain req s).0.error ≡ none
      → owner s k ≡ some a
      → same (Lk.obtain req s).0.id a ≡ false
  pub granted :
      (req : Request) (s : Lk.State) (k : String)
      → IsValid s
      → (Lk.obtain req s).0.error ≡ none
      → owner (Lk.obtain req s).1 k
        ≡ (if create_locking_id L req == k then some (Lk.obtain req s).0.id else owner s k)
  pub refused :
      (req : Request) (s : Lk.State) (k : String) (e : Err)
      → IsValid s
      → (Lk.obtain req s).0.error ≡ some e
      → owner (Lk.obtain req s).1 k ≡ owner s k
  pub released :
      (session : LockSession Lk.SessionId) (s : Lk.State) (k : String)
      → IsValid s
      → owner (Lk.done session s) k ≡ cleared (same session.id) (owner s k)
