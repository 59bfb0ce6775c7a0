-- ===== src/Controllers/Lock.antt =====
-- The lock of a reconciler: with the locker in memory, and with every locker that keeps the contract.
use backup_maker_controller.Prelude.{
  Bool, true, false, Res, if◌then◌else◌, ◌<◌, String, ◌≡◌, refl, arith, Option, none, some,
  Option-cases, inl, inr, List, Err, ok, Go, eq_iff, count,
}
use backup_maker_controller.Kube.{Request}
use backup_maker_controller.Libs.{Libs, IsLawful}
use backup_maker_controller.Locking.Contract.{IsLocker}
use backup_maker_controller.Locking.{
  Locker, create_locking_id, err_already_locked, already_locked, has_failure,
}
use backup_maker_controller.Locking.InMemory.{obtain, in_memory_locker}
use backup_maker_controller.Locking.InMemory.Laws.{done-obtain, is_locked-count}
use backup_maker_controller.Controllers.{Reply, requeue, under_lock}

module _ (L : Libs) {S : Type 0} (req : Request) (body : Go S Reply) where
  -- Under the locker in memory the list of locks is afterwards what it was before, whichever way the
  -- reconciler ends: it is refused, it returns a result or an error, or it panics.
  pub under_lock_releases :
      (w : S) (locks : List String)
      → (under_lock L (in_memory_locker L) req body (w, locks)).1.1 ≡ locks
  unfolding under_lock already_locked has_failure obtain
  under_lock_releases w locks = ground (arith, done-obtain L req locks)

  -- Where an error made of a text shows that text: while the list holds the identifier of the
  -- request, the reconciler answers that it wants to run again in ten seconds, and it changes
  -- nothing.
  pub under_lock_waits :
      IsLawful L
      → (w : S) (locks : List String) → 0 < count (create_locking_id L req) locks
      → under_lock L (in_memory_locker L) req body (w, locks) ≡ (ok (requeue 10), (w, locks))
  unfolding under_lock already_locked obtain
  under_lock_waits lawful w locks h = ground (
    arith,
    eq_iff (L.error_text (Err.new err_already_locked)) err_already_locked,
    lawful.error_text-new err_already_locked,
    is_locked-count locks (create_locking_id L req),
  )

  -- While the list does not hold it, the reconciler does its work, and its outcome is the outcome.
  pub under_lock_works :
      (w : S) (locks : List String)
      → count (create_locking_id L req) locks ≡ 0
      → under_lock L (in_memory_locker L) req body (w, locks) ≡ ((body w).0, ((body w).1, locks))
  unfolding under_lock already_locked has_failure obtain
  under_lock_works w locks h =
      ground (arith, done-obtain L req locks, is_locked-count locks (create_locking_id L req))

module _ (L : Libs) (Lk : Locker) {S : Type 0} (req : Request) (body : Go S Reply) (w : S)
    (locks : Lk.State) where
  refused_frame :
      (e : Err)
      → (Lk.obtain req locks).0.error ≡ some e
      → (under_lock L Lk req body (w, locks)).1 ≡ (w, (Lk.obtain req locks).1)
  unfolding under_lock already_locked has_failure
  refused_frame e not_ok = ground (arith, not_ok)

  granted_frame :
      (Lk.obtain req locks).0.error ≡ none
      → (under_lock L Lk req body (w, locks)).1
        ≡ ((body w).1, Lk.done (Lk.obtain req locks).0 (Lk.obtain req locks).1)
  unfolding under_lock already_locked has_failure
  granted_frame free = ground (arith, free)

module _ (L : Libs) (Lk : Locker) (K : IsLocker L Lk) (req : Request) (locks : Lk.State)
    (valid : K.IsValid locks) (free : (Lk.obtain req locks).0.error ≡ none) (k : String) where
  done-obtain-owner :
      (o : Option Lk.SessionId)
      → K.owner locks k ≡ o
      → K.owner (Lk.done (Lk.obtain req locks).0 (Lk.obtain req locks).1) k ≡ o
  done-obtain-owner none e = ground (
    arith,
    K.released (Lk.obtain req locks).0 (Lk.obtain req locks).1 k (K.obtain-IsValid req locks valid),
    K.granted req locks k valid free,
    e,
    K.same_refl (Lk.obtain req locks).0.id,
  )
  done-obtain-owner (some a) e = ground (
    arith,
    K.released (Lk.obtain req locks).0 (Lk.obtain req locks).1 k (K.obtain-IsValid req locks valid),
    K.granted req locks k valid free,
    e,
    K.fresh req locks k a valid free e,
    K.excluded req locks valid free,
    eq_iff (create_locking_id L req) k,
  )

module _ (L : Libs) (Lk : Locker) (K : IsLocker L Lk) {S : Type 0} (req : Request)
    (body : Go S Reply) where
  -- Under every locker that keeps the contract, the table of owners is afterwards what it was before,
  -- whichever way the reconciler ends: it is refused, it returns a result or an error, or it panics.
  pub under_lock_restores :
      (w : S) (locks : Lk.State) (k : String)
      → K.IsValid locks
      → K.owner (under_lock L Lk req body (w, locks)).1.1 k ≡ K.owner locks k
  under_lock_restores w locks k valid = elim (Option-cases (Lk.obtain req locks).0.error) [
    | inl free ↦
        rw (granted_frame L Lk req body w locks free)
          (done-obtain-owner L Lk K req locks valid free k (K.owner locks k) refl)
    | inr (e, not_ok) ↦
        rw (refused_frame L Lk req body w locks e not_ok) (K.refused req locks k e valid not_ok)
  ]

  -- Under every locker that keeps the contract, a reconciler changes nothing while somebody owns the
  -- identifier of its request.
  pub under_lock_excludes :
      (w : S) (locks : Lk.State) (a : Lk.SessionId)
      → K.IsValid locks
      → K.owner locks (create_locking_id L req) ≡ some a
      → (under_lock L Lk req body (w, locks)).1.0 ≡ w
  under_lock_excludes w locks a valid owned = elim (Option-cases (Lk.obtain req locks).0.error) [
    | inl free ↦ absurd (ground (arith, K.excluded req locks valid free, owned))
    | inr (e, not_ok) ↦ rw (refused_frame L Lk req body w locks e not_ok) refl
  ]

module _ (L : Libs) (Lk : Locker) {S : Type 0} (req : Request) (P : S → Type 0) where
  either_keeps :
      (a b : Bool) (x y z : Res Reply × (S × Lk.State))
      → P x.1.0
      → P y.1.0
      → P z.1.0
      → P (if a then x else if b then y else z).1.0
  either_keeps true b x y z h i j = h
  either_keeps false true x y z h i j = i
  either_keeps false false x y z h i j = j

  -- With every locker, what the body keeps is kept, whether the body runs or not.
  pub under_lock_keeps :
      (body : Go S Reply) (w : S) (locks : Lk.State)
      → P w
      → P (body w).1
      → P (under_lock L Lk req body (w, locks)).1.0
  unfolding under_lock
  under_lock_keeps body w locks h i =
      let (session, locks') = Lk.obtain req locks in
      either_keeps (already_locked L session) (has_failure L session) (ok (requeue 10), (w, locks'))
        (ok (record { result = record { requeue_after = 0 }; error = session.error }), (w, locks'))
        ((body w).0, ((body w).1, Lk.done session locks')) h h i
