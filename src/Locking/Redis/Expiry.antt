-- ===== src/Locking/Redis/Expiry.antt =====
-- The time to live of a lock in Redis, which redis.go sets to 60 seconds and never prolongs.
use backup_maker_controller.Prelude.{
  ℕ, ◌<◌, ◌≤◌, String, ◌≡◌, ◌↔◌, refl, arith, Err, Option, none, some,
}
use backup_maker_controller.Kube.{Request}
use backup_maker_controller.Libs.{Libs}
use backup_maker_controller.Locking.{create_locking_id}
use backup_maker_controller.Locking.Redis.{RedisLock, session_of, obtain}
use backup_maker_controller.Locking.Redis.Server.{IsServer, granted_call}

-- What `redislock` documents of time: a key stands for as long as its time to live, and a free key is set.
pub record Expires (R : RedisLock) (S : IsServer R) : Type 0 where
  -- The seconds that pass without a call.
  pub elapse : ℕ → R.State → R.State
  pub free :
      (k : String) (ttl : ℕ) (s : R.State) → S.owner s k ≡ none → (R.obtain k ttl s).0.1 ≡ none
  pub lapses :
      (k : String) (ttl t : ℕ) (s : R.State)
      → (R.obtain k ttl s).0.1 ≡ none
      → ttl ≤ t
      → S.owner (elapse t (R.obtain k ttl s).1) k ≡ none
  pub lasts :
      (k : String) (ttl t : ℕ) (s : R.State)
      → (R.obtain k ttl s).0.1 ≡ none
      → t < ttl
      → S.owner (elapse t (R.obtain k ttl s).1) k ≡ some (R.obtain k ttl s).0.0

module _ (L : Libs) (R : RedisLock) (S : IsServer R) (E : Expires R S) (req : Request) where
  session_of_free :
      (lock : R.Lock) (e : Option Err) → e ≡ none → (session_of L R lock e).error ≡ none
  unfolding session_of
  session_of_free lock e h = rw h refl

  -- A session that was granted excludes every other one on its request for less than a minute: after
  -- `t` seconds without a release, a second session on the request is granted if, and only if,
  -- these are 60 or more. A reconciler that works for longer is not alone any more.
  pub granted_again_iff :
      (s : R.State) (t : ℕ)
      → (obtain L R req s).0.error ≡ none
      → ((obtain L R req (E.elapse t (obtain L R req s).1)).0.error ≡ none) ↔ (60 ≤ t)
  unfolding obtain create_locking_id
  granted_again_iff s t first =
      let k = create_locking_id L req in
      let set_first = (granted_call L R (R.obtain k 60 s).0.0 (R.obtain k 60 s).0.1 first).0 in
      let s' = E.elapse t (R.obtain k 60 s).1 in
      (
        λ second.
            let free = S.set_nx k 60 s' (granted_call L R _ _ second).0 in
            ground (arith, E.lasts k 60 t s set_first, free),
        λ late.
            session_of_free (R.obtain k 60 s').0.0 (R.obtain k 60 s').0.1
              (E.free k 60 s' (E.lapses k 60 t s set_first late)),
      )
