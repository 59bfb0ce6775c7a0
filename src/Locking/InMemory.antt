-- ===== src/Locking/InMemory.antt =====
-- inmemory.go: the locker that keeps the identifiers of the locked resources in a list.
pub mod Laws
use backup_maker_controller.Prelude.{
  ℕ, suc, ◌+◌, String, ◌==◌, Bool, true, false, Option, none, some, List, [], ◌∷◌, ◌++◌, Err, take,
  drop, if◌then◌else◌,
}
use backup_maker_controller.Kube.{Request}
use backup_maker_controller.Libs.{Libs}
use backup_maker_controller.Locking.{LockSession, Locker, create_locking_id, err_already_locked}

unfoldable pub is_locked : List String → String → Bool
is_locked [] ident = false
is_locked (name ∷ locks) ident =
    let rest = is_locked locks ident in if name == ident then true else rest

-- The loop of `removeFromList`: the first place of the key, counted from `k`, or none for -1.
find_index : ℕ → List String → String → Option ℕ
find_index k [] key = none
find_index k (v ∷ s) key = let rest = find_index (k + 1) s key in if v == key then some k else rest

-- `append(s[:index], s[index+1:]...)`
unfoldable pub remove_from_list : List String → String → List String
unfolding find_index
remove_from_list s key = elim (find_index 0 s key) [
  | none ↦ s
  | some index ↦ take index s ++ drop (suc index) s
]

module _ (L : Libs) where
  unfoldable pub obtain : Request → List String → LockSession String × List String
  unfolding is_locked create_locking_id
  obtain req locks =
      let ident = create_locking_id L req in
      if is_locked locks ident
      then (record { id = ident; error = some (Err.new err_already_locked) }, locks)
      else (record { id = ident; error = none }, locks ++ ident ∷ [])

unfoldable pub done : LockSession String → List String → List String
unfolding remove_from_list
done session locks = remove_from_list locks session.id

unfoldable pub new_in_memory_locker : List String
new_in_memory_locker = []

abbrev pub in_memory_locker : Libs → Locker
in_memory_locker L = record {
  State = List String;
  SessionId = String;
  obtain = obtain L;
  done = done;
  close = λ locks. locks;
}
