-- ===== src/Tests/Locks.antt =====
-- Sessions that are granted, refused and released.
use backup_maker_controller.Prelude.{
  none, ℕ, ◌+◌, ◌≤◌, String, ◌==◌, ◌≡◌, refl, arith, some, List, [], ◌∷◌, count, new, ok, Go,
}
use backup_maker_controller.Locking.{LockSession, create_locking_id}
use backup_maker_controller.Locking.InMemory.{
  is_locked, obtain, new_in_memory_locker, in_memory_locker,
}
use backup_maker_controller.Locking.Contract.{IsLocker}
use backup_maker_controller.Locking.Contract.InMemory.{
  HasNoRepeats, owner_in, in_memory_locker-IsLocker, in_memory_locker_refines,
}
use backup_maker_controller.Locking.Interleaving.{System, granted, here, next, Reach-IsExclusive}
use backup_maker_controller.Locking.Redis.{RedisLock}
use backup_maker_controller.Controllers.{Reply, under_lock}
use backup_maker_controller.Controllers.Lock.{under_lock_restores, under_lock_excludes}
use backup_maker_controller.Tests.Samples.{libs, req}

abbrev first_session : LockSession String × List String
first_session = obtain libs req []

abbrev one_holder : System
one_holder = record { locks = first_session.1; holders = first_session.0.id ∷ [] }

Reach-IsExclusive_example :
    (count "ns/db" one_holder.holders ≡ count "ns/db" one_holder.locks)
    × (count "ns/db" one_holder.locks ≤ 1)
unfolding new_in_memory_locker obtain
Reach-IsExclusive_example = Reach-IsExclusive libs (next here (granted req refl refl)) "ns/db"

-- A server whose key is taken.
abbrev taken : RedisLock
taken = record {
  State = Unit {0};
  Lock = Unit {0};
  obtain = λ key ttl s. ((tt, some (new "redislock: not obtained")), s);
  is_not_obtained = λ e. libs.error_text e == "redislock: not obtained";
  release = λ lock s. (none, s);
  close = λ s. s;
}

-- A reconciler that fails after it counted its run.
abbrev failing : Go ℕ Reply
failing n = (ok (record { result = record { requeue_after = 0 }; error = some (new "x") }), n + 1)

-- The list of the locker with a lock on another resource.
abbrev one_lock : List String
one_lock = "a/b" ∷ []

one_lock-HasNoRepeats : HasNoRepeats one_lock
one_lock-HasNoRepeats k = ground arith

in_memory_locker_refines_example :
    (K : IsLocker libs (in_memory_locker libs)) × K.IsValid new_in_memory_locker
in_memory_locker_refines_example = in_memory_locker_refines libs

under_lock_restores_example :
    owner_in (under_lock libs (in_memory_locker libs) req failing (0, one_lock)).1.1 "ns/db"
    ≡ owner_in one_lock "ns/db"
unfolding in_memory_locker-IsLocker
under_lock_restores_example =
    under_lock_restores libs (in_memory_locker libs) (in_memory_locker-IsLocker libs) req failing 0
      one_lock "ns/db" one_lock-HasNoRepeats

under_lock_excludes_example :
    (under_lock libs (in_memory_locker libs) req failing (0, "ns/db" ∷ [])).1.0 ≡ 0
unfolding in_memory_locker-IsLocker create_locking_id is_locked
under_lock_excludes_example =
    under_lock_excludes libs (in_memory_locker libs) (in_memory_locker-IsLocker libs) req failing 0
      ("ns/db" ∷ []) "ns/db" (λ k. ground arith) refl
