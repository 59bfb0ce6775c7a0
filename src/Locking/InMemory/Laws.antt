-- ===== src/Locking/InMemory/Laws.antt =====
-- The list of locks as a set of names: what obtaining and releasing do to it.
use backup_maker_controller.Prelude.{
  ℕ, suc, ◌+◌, ◌-◌, ◌≤◌, ◌≡◌, ◌↔◌, refl, String, ◌==◌, true, false, none, some, List, [], ◌∷◌, ◌++◌,
  Err, arith, eq_iff, count, count-append, if◌then◌else◌,
}
use backup_maker_controller.Kube.{Request}
use backup_maker_controller.Libs.{Libs}
use backup_maker_controller.Locking.{create_locking_id}
use backup_maker_controller.Locking.InMemory.{is_locked, find_index, remove_from_list, obtain, done}

-- The list without the first place of the key.
remove_one : List String → String → List String
remove_one [] key = []
remove_one (v ∷ s) key = let rest = remove_one s key in if v == key then s else v ∷ rest

-- What the loop does from its place `k` on.
find_index_shift :
    (k : ℕ) (s : List String) (key : String)
    → find_index (suc k) s key ≡ (elim (find_index k s key) [ none ↦ none | some i ↦ some (suc i) ])
unfolding find_index
find_index_shift k [] key = refl
find_index_shift k (v ∷ s) key = ground (arith, find_index_shift (k + 1) s key)

remove_from_list-eq-remove_one :
    (s : List String) (key : String) → remove_from_list s key ≡ remove_one s key
unfolding remove_from_list remove_one
remove_from_list-eq-remove_one [] key = refl
remove_from_list-eq-remove_one (v ∷ s) key =
    ground (arith, find_index_shift 0 s key, remove_from_list-eq-remove_one s key)

count-remove_one :
    (s : List String) (key k : String)
    → count k (remove_one s key) ≡ (if k == key then count k s - 1 else count k s)
unfolding remove_one
count-remove_one [] key k = ground arith
count-remove_one (v ∷ s) key k =
    ground (arith, eq_iff k key, eq_iff v key, eq_iff v k, count-remove_one s key k)

pub is_locked-count :
    (s : List String) (k : String)
    → (is_locked s k ≡ true → 1 ≤ count k s) × (is_locked s k ≡ false → count k s ≡ 0)
unfolding is_locked
is_locked-count [] k = (λ h. cc, λ h. refl)
is_locked-count (v ∷ s) k = ground (arith, is_locked-count s k)

-- Releasing a key takes one place of it out, and no place of another key.
pub count-remove_from_list :
    (s : List String) (key k : String)
    → count k (remove_from_list s key) ≡ (if k == key then count k s - 1 else count k s)
count-remove_from_list s key k =
    rw (remove_from_list-eq-remove_one s key) (count-remove_one s key k)

remove_one-append :
    (s : List String) (key : String) → is_locked s key ≡ false → remove_one (s ++ key ∷ []) key ≡ s
unfolding remove_one is_locked
remove_one-append [] key h = ground (arith, eq_iff key key)
remove_one-append (v ∷ s) key h = ground (arith, remove_one-append s key)

module _ (L : Libs) where
  -- A session that is granted leaves, when it is released at once, the list as it was.
  pub done-obtain :
      (req : Request) (locks : List String)
      → (obtain L req locks).0.error ≡ none
      → done (obtain L req locks).0 (obtain L req locks).1 ≡ locks
  unfolding obtain done
  done-obtain req locks h =
      let ident = create_locking_id L req in
      ground (
        arith,
        remove_from_list-eq-remove_one (locks ++ ident ∷ []) ident,
        remove_one-append locks ident,
      )

  -- An attempt that is refused leaves the list as it was.
  pub obtain_refused :
      (req : Request) (locks : List String) {e : Err}
      → (obtain L req locks).0.error ≡ some e
      → (obtain L req locks).1 ≡ locks
  unfolding obtain
  obtain_refused req locks h = ground arith

  -- A session is granted exactly when the list does not hold the identifier of the request; in both
  -- cases the session has that identifier.
  pub obtain_iff :
      (req : Request) (locks : List String)
      → ((obtain L req locks).0.id ≡ create_locking_id L req)
        × (((obtain L req locks).0.error ≡ none) ↔ (count (create_locking_id L req) locks ≡ 0))
  unfolding obtain
  obtain_iff req locks = ground (arith, is_locked-count locks (create_locking_id L req))

  -- What a granted session adds to the list: its own identifier once.
  pub count-obtain :
      (req : Request) (locks : List String) (k : String)
      → (obtain L req locks).0.error ≡ none
      → count k (obtain L req locks).1
        ≡ (if create_locking_id L req == k then suc (count k locks) else count k locks)
  unfolding obtain
  count-obtain req locks k h = ground (arith, count-append k locks (create_locking_id L req ∷ []))
