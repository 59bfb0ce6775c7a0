-- ===== src/Tests/Redis.antt =====
-- A Redis server: a lock is a number, and a key has a lock and the seconds that it has left.
use backup_maker_controller.Prelude.{
  ℕ, suc, List, false, ◌+◌, ◌-◌, ◌≤◌, String, ◌==◌, ◌&&◌, ◌≡◌, ◌↔◌, refl, arith, Bool, Option, none,
  some, [], ◌∷◌, Err, new, Dict, lookup, assign, lookup-assign, leb, if◌then◌else◌, eq_iff,
}
use backup_maker_controller.Locking.Redis.{RedisLock, obtain}
use backup_maker_controller.Locking.Redis.Server.{
  IsServer, Call, obtains, gives_up, after, held_until_done,
}
use backup_maker_controller.Locking.Redis.Expiry.{Expires, granted_again_iff}
use backup_maker_controller.Tests.Samples.{libs, req}

-- none for a key that is gone.
abbrev Slot : Type 0
Slot = ℕ × Option ℕ

abbrev same_number : ℕ → ℕ → Bool
same_number a b = leb a b && leb b a

abbrev holder : Option Slot → Option ℕ
holder none = none
holder (some (lock, none)) = none
holder (some (lock, some left)) = some lock

abbrev owner_of : Dict Slot → String → Option ℕ
owner_of s k = holder (lookup k s)

-- More than every lock of the table.
abbrev fresh_lock : Dict Slot → ℕ
fresh_lock [] = 1
fresh_lock ((k, (lock, left)) ∷ s) = suc (lock + fresh_lock s)

abbrev map_slots : (Slot → Slot) → Dict Slot → Dict Slot
map_slots f [] = []
map_slots f ((k, slot) ∷ s) = (k, f slot) ∷ map_slots f s

abbrev dropped : ℕ → Slot → Slot
dropped lock (a, left) = (a, if same_number lock a then none else left)

abbrev aged : ℕ → Slot → Slot
aged t (a, none) = (a, none)
aged t (a, some left) = (a, if leb left t then none else some (left - t))

abbrev set_slot : String → ℕ → Dict Slot → Option ℕ → (ℕ × Option Err) × Dict Slot
set_slot k ttl s none = ((fresh_lock s, none), assign k (fresh_lock s, some ttl) s)
set_slot k ttl s (some a) = ((0, some (new "redislock: not obtained")), s)

abbrev redis : RedisLock
redis = record {
  State = Dict Slot;
  Lock = ℕ;
  obtain = λ k ttl s. set_slot k ttl s (owner_of s k);
  is_not_obtained = λ e. libs.error_text e == "redislock: not obtained";
  release = λ lock s. (none, map_slots (dropped lock) s);
  close = λ s. s;
}

abbrev mapped : (Slot → Slot) → Option Slot → Option Slot
mapped f none = none
mapped f (some slot) = some (f slot)

lookup-map_slots :
    (f : Slot → Slot) (k : String) (s : Dict Slot)
    → lookup k (map_slots f s) ≡ mapped f (lookup k s)
unfolding lookup
lookup-map_slots f k [] = refl
lookup-map_slots f k ((j, slot) ∷ s) = ground (arith, lookup-map_slots f k s)

holder-dropped :
    (lock a : ℕ) (o : Option Slot)
    → same_number lock a ≡ false
    → holder o ≡ some a
    → holder (mapped (dropped lock) o) ≡ some a
holder-dropped lock a none other h = ground (arith, h)
holder-dropped lock a (some (b, none)) other h = ground (arith, h)
holder-dropped lock a (some (b, some left)) other h = ground (arith, h, other)

-- The outcomes of a call, by the owner before it.
module _ (k : String) (ttl : ℕ) (s : Dict Slot) where
  set_slot_free : (o : Option ℕ) → (set_slot k ttl s o).0.1 ≡ none → o ≡ none
  set_slot_free none h = refl
  set_slot_free (some a) h = ground arith

  set_slot_owner :
      (o : Option ℕ) → o ≡ none → owner_of (set_slot k ttl s o).1 k ≡ some (set_slot k ttl s o).0.0
  set_slot_owner none h = ground (arith, lookup-assign k k (fresh_lock s, some ttl) s, eq_iff k k)
  set_slot_owner (some a) h = ground arith

  set_slot_kept :
      (j : String) (a : ℕ) (o : Option ℕ)
      → o ≡ owner_of s k
      → owner_of s j ≡ some a
      → owner_of (set_slot k ttl s o).1 j ≡ some a
  set_slot_kept j a none free h =
      ground (arith, lookup-assign j k (fresh_lock s, some ttl) s, eq_iff k j, free, h)
  set_slot_kept j a (some b) held h = h

  owner_in_time :
      (t : ℕ) (o : Option ℕ)
      → o ≡ none
      → owner_of (map_slots (aged t) (set_slot k ttl s o).1) k
        ≡ (if leb ttl t then none else some (set_slot k ttl s o).0.0)
  owner_in_time t none h = ground (
    arith,
    lookup-map_slots (aged t) k (assign k (fresh_lock s, some ttl) s),
    lookup-assign k k (fresh_lock s, some ttl) s,
    eq_iff k k,
  )
  owner_in_time t (some a) h = ground arith

abbrev redis-IsServer : IsServer redis
redis-IsServer = record {
  owner = owner_of;
  same = same_number;
  set_nx = λ k ttl s h. set_slot_free k ttl s (owner_of s k) h;
  set = λ k ttl s h. set_slot_owner k ttl s (owner_of s k) (set_slot_free k ttl s (owner_of s k) h);
  not_exists = λ k ttl s j a h. set_slot_kept k ttl s j a (owner_of s k) refl h;
  by_token = λ lock s j a other h.
      rw (lookup-map_slots (dropped lock) j s) (holder-dropped lock a (lookup j s) other h);
}

abbrev redis-Expires : Expires redis redis-IsServer
redis-Expires = record {
  elapse = λ t s. map_slots (aged t) s;
  free = λ k ttl s h. rw h refl;
  lapses = λ k ttl t s h late.
      ground
        (arith, set_slot_free k ttl s (owner_of s k) h, owner_in_time k ttl s t (owner_of s k));
  lasts = λ k ttl t s h early.
      ground
        (arith, set_slot_free k ttl s (owner_of s k) h, owner_in_time k ttl s t (owner_of s k));
}

-- The lock of the request is taken. Somebody asks for it in vain and gives up what the call returned, and
-- somebody else takes a lock of another resource.
abbrev calls : List (Call libs redis)
calls =
    obtains req
    ∷ gives_up (record { id = 0; error = none })
    ∷ obtains (record { namespace = "other"; name = "b" })
    ∷ []

held_until_done_example :
    (e : Err) × ((obtain libs redis req
        (after libs redis calls (obtain libs redis req []).1)).0.error
      ≡ some e)
unfolding obtain lookup
held_until_done_example =
    held_until_done libs redis redis-IsServer req req [] calls refl refl (tt, (refl, (tt, tt)))

-- The lock of the request is taken, and a minute passes.
granted_again_iff_example :
    ((obtain libs redis req (map_slots (aged 60) (obtain libs redis req []).1)).0.error ≡ none)
    ↔ (60 ≤ 60)
unfolding obtain lookup
granted_again_iff_example = granted_again_iff libs redis redis-IsServer redis-Expires req [] 60 refl
