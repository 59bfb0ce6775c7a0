-- ===== src/Locking/Interleaving.antt =====
-- Controllers that share the in-memory locker: its calls in any order. Each call is taken as one
-- step, although the code has no mutex: two calls at the same time can do what no order of calls does.
use backup_maker_controller.Prelude.{
  ◌≤◌, ◌≡◌, String, none, some, List, [], ◌∷◌, ◌++◌, Err, arith, count, count-append, eq_iff,
}
use backup_maker_controller.Kube.{Request}
use backup_maker_controller.Libs.{Libs}
use backup_maker_controller.Locking.{LockSession, create_locking_id}
use backup_maker_controller.Locking.InMemory.{obtain, done, new_in_memory_locker}
use backup_maker_controller.Locking.InMemory.Laws.{
  count-remove_from_list, obtain_iff, obtain_refused, count-obtain,
}

-- The list of the locker, and the identifiers of the sessions that were granted and are not released.
pub record System : Type 0 where
  pub locks : List String
  pub holders : List String

abbrev pub start : System
start = record { locks = new_in_memory_locker; holders = [] }

module _ (L : Libs) where
  -- A reconciler asks for its session and gets it or is refused, or one releases the session it has.
  pub data Step (s : System) (t : System) : Type 0 where
    granted :
        (req : Request)
        → (obtain L req s.locks).0.error ≡ none
        → t ≡ record {
          locks = (obtain L req s.locks).1;
          holders = (obtain L req s.locks).0.id ∷ s.holders;
        }
        → Step s t
    refused :
        (req : Request) (e : Err)
        → (obtain L req s.locks).0.error ≡ some e
        → t ≡ record s { locks = (obtain L req s.locks).1 }
        → Step s t
    released :
        (session : LockSession String) (before after : List String)
        → s.holders ≡ before ++ (session.id ∷ after)
        → t ≡ record { locks = done session s.locks; holders = before ++ after }
        → Step s t

  pub data Reach (s : System) : System → Type 0 where
    here : Reach s s
    next : {t u : System} → Reach s t → Step t u → Reach s u

  -- Each identifier has as many holders as places in the list, and one at most.
  abbrev pub IsExclusive : System → Type 0
  IsExclusive s = (k : String) → (count k s.holders ≡ count k s.locks) × (count k s.locks ≤ 1)

  Step-IsExclusive : {s t : System} → Step s t → IsExclusive s → IsExclusive t
  unfolding done
  Step-IsExclusive {s} (granted req h e) inv k = ground (
    arith,
    inv k,
    obtain_iff L req s.locks,
    count-obtain L req s.locks k h,
    eq_iff (create_locking_id L req) k,
  )
  Step-IsExclusive {s} (refused req x h e) inv k =
      ground (arith, inv k, obtain_refused L req s.locks h)
  Step-IsExclusive {s} (released session before after h e) inv k = ground (
    arith,
    inv k,
    h,
    count-append k before (session.id ∷ after),
    count-append k before after,
    count-remove_from_list s.locks session.id k,
    eq_iff k session.id,
    eq_iff session.id k,
  )

  -- In every state that the calls can reach, in any order, no resource has two sessions at a time, and
  -- the list holds just the identifiers of the open sessions.
  pub Reach-IsExclusive : {s : System} → Reach start s → IsExclusive s
  unfolding new_in_memory_locker
  Reach-IsExclusive here k = omega arith
  Reach-IsExclusive (next r st) k = Step-IsExclusive st (Reach-IsExclusive r) k
