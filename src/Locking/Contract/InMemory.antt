-- ===== src/Locking/Contract/InMemory.antt =====
-- The locker in memory keeps the contract, as long as its list has no identifier twice.
use backup_maker_controller.Prelude.{
  ◌-◌, ◌≤◌, String, ◌==◌, ◌≡◌, refl, arith, eq_iff, eq_refl, Option, none, some, Option-cases, inl,
  inr, List, count, if◌then◌else◌,
}
use backup_maker_controller.Kube.{Request}
use backup_maker_controller.Libs.{Libs}
use backup_maker_controller.Locking.{LockSession, create_locking_id}
use backup_maker_controller.Locking.InMemory.{
  is_locked, obtain, done, new_in_memory_locker, in_memory_locker,
}
use backup_maker_controller.Locking.InMemory.Laws.{
  is_locked-count, count-remove_from_list, obtain_refused, obtain_iff, count-obtain,
}
use backup_maker_controller.Locking.Contract.{IsLocker}

abbrev pub HasNoRepeats : List String → Type 0
HasNoRepeats locks = (k : String) → count k locks ≤ 1

-- The owner of an identifier is its session, which is known by the identifier itself.
abbrev pub owner_in : List String → String → Option String
owner_in locks k = if is_locked locks k then some k else none

pub count-done :
    (session : LockSession String) (locks : List String) (k : String)
    → count k (done session locks) ≡ (if k == session.id then count k locks - 1 else count k locks)
unfolding done
count-done session locks k = count-remove_from_list locks session.id k

module _ (L : Libs) where
  pub obtain-HasNoRepeats :
      (req : Request) (locks : List String)
      → HasNoRepeats locks
      → HasNoRepeats (obtain L req locks).1
  obtain-HasNoRepeats req locks h k = elim (Option-cases (obtain L req locks).0.error) [
    | inl ok ↦ ground (
      arith,
      h k,
      count-obtain L req locks k ok,
      obtain_iff L req locks,
      ok,
      eq_iff (create_locking_id L req) k,
    )
    | inr (e, not_ok) ↦ rw (obtain_refused L req locks not_ok) (h k)
  ]

  pub done-HasNoRepeats :
      (session : LockSession String) (locks : List String)
      → HasNoRepeats locks
      → HasNoRepeats (done session locks)
  done-HasNoRepeats session locks h k = ground (arith, h k, count-done session locks k)

  unfoldable pub in_memory_locker-IsLocker : IsLocker L (in_memory_locker L)
  in_memory_locker-IsLocker = record {
    IsValid = HasNoRepeats;
    owner = owner_in;
    same = λ a b. a == b;
    same_refl = eq_refl;
    obtain-IsValid = obtain-HasNoRepeats;
    done-IsValid = done-HasNoRepeats;
    excluded = λ req s h ok.
        ground (arith, obtain_iff L req s, ok, is_locked-count s (create_locking_id L req));
    fresh = λ req s k a h ok e. ground (
      arith,
      obtain_iff L req s,
      ok,
      e,
      is_locked-count s k,
      eq_iff (obtain L req s).0.id a,
      eq_iff k (create_locking_id L req),
      is_locked-count s (create_locking_id L req),
    );
    granted = λ req s k h ok. ground (
      arith,
      obtain_iff L req s,
      ok,
      is_locked-count s k,
      is_locked-count (obtain L req s).1 k,
      count-obtain L req s k ok,
      eq_iff (create_locking_id L req) k,
    );
    refused = λ req s k e h not_ok. rw (obtain_refused L req s not_ok) refl;
    released = λ session s k h. ground (
      arith,
      h k,
      count-done session s k,
      is_locked-count s k,
      is_locked-count (done session s) k,
      eq_iff session.id k,
      eq_iff k session.id,
    );
  }

  -- The locker in memory keeps the contract of a locker, from the empty list that it starts with: what
  -- its list of texts does is what a table of owners does, in every state that the calls can lead to.
  pub in_memory_locker_refines :
      (K : IsLocker L (in_memory_locker L)) × K.IsValid new_in_memory_locker
  unfolding new_in_memory_locker in_memory_locker-IsLocker
  in_memory_locker_refines = (in_memory_locker-IsLocker, λ k. omega arith)
