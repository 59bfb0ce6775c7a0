-- ===== src/Locking/Redis/Server.antt =====
-- Who owns a key of Redis, if the server does what `redislock` documents: a key is set only where it is
-- not, and is deleted only by its own token, or by the passing of time.
use backup_maker_controller.Prelude.{
  ℕ, String, ◌≡◌, refl, subst, arith, Bool, false, Option, none, some, List, [], ◌∷◌, All, Err,
}
use backup_maker_controller.Kube.{Request}
use backup_maker_controller.Libs.{Libs}
use backup_maker_controller.Locking.{LockSession, create_locking_id}
use backup_maker_controller.Locking.Redis.{RedisLock, session_of, obtain, done}

pub record IsServer (R : RedisLock) : Type 0 where
  pub owner : R.State → String → Option R.Lock
  -- Two locks have one token.
  pub same : R.Lock → R.Lock → Bool
  pub set_nx :
      (k : String) (ttl : ℕ) (s : R.State) → (R.obtain k ttl s).0.1 ≡ none → owner s k ≡ none
  -- `SET … NX`: a key that is set stays as it is, whatever the call returns; a key that the call was told to
  -- be set has the new lock.
  pub set :
      (k : String) (ttl : ℕ) (s : R.State)
      → (R.obtain k ttl s).0.1 ≡ none
      → owner (R.obtain k ttl s).1 k ≡ some (R.obtain k ttl s).0.0
  pub not_exists :
      (k : String) (ttl : ℕ) (s : R.State) (j : String) (a : R.Lock)
      → owner s j ≡ some a
      → owner (R.obtain k ttl s).1 j ≡ some a
  -- A release deletes by token, and one that fails may have done nothing: the key of another token stays.
  pub by_token :
      (lock : R.Lock) (s : R.State) (j : String) (a : R.Lock)
      → same lock a ≡ false
      → owner s j ≡ some a
      → owner (R.release lock s).1 j ≡ some a

module _ (L : Libs) (R : RedisLock) where
  -- A session has an error exactly where the call had one, and its lock is that of the call.
  pub granted_call :
      (lock : R.Lock) (e : Option Err)
      → (session_of L R lock e).error ≡ none
      → (e ≡ none) × ((session_of L R lock e).id ≡ lock)
  unfolding session_of
  granted_call lock none h = (refl, refl)
  granted_call lock (some e) h = ground arith

  has_error : (o : Option Err) → (o ≡ none → ⊥) → (e : Err) × (o ≡ some e)
  has_error none h = absurd (h refl)
  has_error (some e) h = (e, refl)

  taken : (o : Option R.Lock) (lock : R.Lock) → o ≡ some lock → o ≡ none → ⊥
  taken o lock h free = ground (arith, h, free)

  -- The calls of the reconcilers that share the server.
  pub data Call : Type 0 where
    obtains : Request → Call
    gives_up : LockSession R.Lock → Call

  abbrev pub after : List Call → R.State → R.State
  after [] s = s
  after (obtains req ∷ calls) s = after calls (obtain L R req s).1
  after (gives_up session ∷ calls) s = after calls (done L R session s)

  module _ (S : IsServer R) where
    -- A call that gives up a session has not the token of this lock.
    abbrev pub IsAnothers : R.Lock → Call → Type 0
    IsAnothers lock (obtains req) = Unit
    IsAnothers lock (gives_up session) = S.same session.id lock ≡ false

    after-owner :
        (calls : List Call) (s : R.State) (k : String) (lock : R.Lock)
        → All (IsAnothers lock) calls
        → S.owner s k ≡ some lock
        → S.owner (after calls s) k ≡ some lock
    unfolding obtain done
    after-owner [] s k lock others held = held
    after-owner (obtains req ∷ calls) s k lock others held =
        after-owner calls _ k lock others.1 (S.not_exists _ 60 s k lock held)
    after-owner (gives_up session ∷ calls) s k lock others held =
        after-owner calls _ k lock others.1 (S.by_token session.id s k lock others.0 held)

    -- A session over Redis excludes every other one until it is given up: where a call was granted, and
    -- then any calls of the reconcilers follow, of which none gives up a session with the token of
    -- the granted one, and no key expires meanwhile, a further call with the same identifier has an
    -- error. The other calls may end with any error, and a release may fail.
    pub held_until_done :
        (req again : Request) (s : R.State) (calls : List Call)
        → create_locking_id L req ≡ create_locking_id L again
        → (obtain L R req s).0.error ≡ none
        → All (IsAnothers (obtain L R req s).0.id) calls
        → (e : Err) × ((obtain L R again (after calls (obtain L R req s).1)).0.error ≡ some e)
    unfolding obtain create_locking_id
    held_until_done req again s calls one first others =
        let k = create_locking_id L req in
        let (set_first, lock) = granted_call (R.obtain k 60 s).0.0 (R.obtain k 60 s).0.1 first in
        let t = after calls (R.obtain k 60 s).1 in
        let held : S.owner t (create_locking_id L again) ≡ some (R.obtain k 60 s).0.0 =
          subst (λ j. S.owner t j ≡ some (R.obtain k 60 s).0.0) one
            (after-owner calls (R.obtain k 60 s).1 k (R.obtain k 60 s).0.0
              (subst (λ a. All (IsAnothers a) calls) lock others) (S.set k 60 s set_first)) in
        has_error _ (λ none_here. taken _ _ held (S.set_nx _ 60 t (granted_call _ _ none_here).0))
