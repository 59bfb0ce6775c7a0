-- ===== src/Locking/Redis.antt =====
-- redis.go: the locker over a shared Redis. `redislock` is not part of the repository: it enters as
-- the record `RedisLock`, over the state of the server.
pub mod Server
pub mod Expiry
use backup_maker_controller.Prelude.{
  ℕ, ◌≡◌, refl, String, ◌==◌, ◌||◌, not, Bool, true, false, Option, none, some, Err, arith, eq_iff,
  if◌then◌else◌,
}
use backup_maker_controller.Kube.{Request}
use backup_maker_controller.Libs.{Libs, IsLawful}
use backup_maker_controller.Locking.{
  LockSession, Locker, create_locking_id, err_already_locked, already_locked, has_failure,
}

pub record RedisLock : Type 1 where
  pub State : Type 0
  -- `*redislock.Lock`
  pub Lock : Type 0
  -- `client.Obtain(ctx, key, ttl, options)`, with the time to live in seconds.
  pub obtain : String → ℕ → State → (Lock × Option Err) × State
  -- `err == redislock.ErrNotObtained`
  pub is_not_obtained : Err → Bool
  -- The error of a release is one of the connection, or says that the lock is not held.
  pub release : Lock → State → Option Err × State
  pub close : State → State

module _ (L : Libs) (R : RedisLock) where
  -- The session of a call that returned the lock and the error.
  pub session_of : R.Lock → Option Err → LockSession R.Lock
  session_of lock none = record { id = lock; error = none }
  session_of lock (some e) =
      if R.is_not_obtained e
      then record { id = lock; error = some (Err.new err_already_locked) }
      else record { id = lock; error = some e }

  unfoldable pub obtain : Request → R.State → LockSession R.Lock × R.State
  unfolding create_locking_id session_of
  obtain req s =
      let ((lock, e), s') = R.obtain (create_locking_id L req) 60 s in (session_of lock e, s')

  -- `_ = lock.Release(ctx)`: the error is dropped.
  unfoldable pub done : LockSession R.Lock → R.State → R.State
  done session s = (R.release session.id s).1

  abbrev pub redis_locker : Locker
  redis_locker = record {
    State = R.State;
    SessionId = R.Lock;
    obtain = obtain;
    done = done;
    close = R.close;
  }

  -- The answer of Redis to the request.
  abbrev pub answer : Request → R.State → Option Err
  answer req s = (R.obtain (create_locking_id L req) 60 s).0.1

  -- Redis refused, by its own error or by one with the text of the locker's.
  abbrev pub is_refusal : Option Err → Bool
  is_refusal none = false
  is_refusal (some e) = R.is_not_obtained e || L.error_text e == err_already_locked

  abbrev pub is_none : Option Err → Bool
  is_none none = true
  is_none (some e) = false

  session_of_lem :
      IsLawful L
      → (lock : R.Lock) (e : Option Err)
      → let session = session_of lock e in
        (already_locked L session ≡ is_refusal e)
        × (has_failure L session ≡ not (is_none e || is_refusal e))
        × (is_none session.error ≡ is_none e)
  unfolding session_of already_locked has_failure
  session_of_lem law lock none = (refl, refl, refl)
  session_of_lem law lock (some e) = ground (
    arith,
    law.error_text-new err_already_locked,
    eq_iff (L.error_text (Err.new err_already_locked)) err_already_locked,
  )

  -- Where an error made of a text shows that text, each answer of Redis is read one way: the
  -- identifier counts as locked already exactly for a refusal, the call has failed exactly for any
  -- other error, and the session is free of errors exactly when the answer was.
  pub obtain_answers :
      IsLawful L
      → (req : Request) (s : R.State)
      → let session = (obtain req s).0 in
        (already_locked L session ≡ is_refusal (answer req s))
        × (has_failure L session ≡ not (is_none (answer req s) || is_refusal (answer req s)))
        × (is_none session.error ≡ is_none (answer req s))
  unfolding obtain
  obtain_answers law req s =
      session_of_lem law (R.obtain (create_locking_id L req) 60 s).0.0 (answer req s)
