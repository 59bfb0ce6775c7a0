-- ===== src/Client/Fake/Clientset/Held.antt =====
-- The objects that a fake client set is made with.
use backup_maker_controller.Prelude.{◌≡◌, refl, List, [], ◌∷◌, All, none, ok, arith}
use backup_maker_controller.Client.Fake.Clientset.{
  Testing, FakeClientset, add_all, new_simple_clientset, tracker_of, with_reactors, clientset_of,
}

-- What client-go documents: an object that is added without an error is in the tracker and stays there.
pub record Tracks (K : Testing) : Type 1 where
  pub Holds : K.Object → K.Tracker → Type 0
  pub added : (obj : K.Object) (o o' : K.Tracker) → K.add obj o ≡ (none, o') → Holds obj o'
  pub kept :
      (obj other : K.Object) (o o' : K.Tracker)
      → K.add obj o ≡ (none, o')
      → Holds other o
      → Holds other o'

-- The tracker takes each of the objects, one after the other.
abbrev pub Accepts : (K : Testing) → List K.Object → K.Tracker → Type 0
Accepts K [] o = Unit
Accepts K (obj ∷ objects) o = ((K.add obj o).0 ≡ none) × Accepts K objects (K.add obj o).1

module _ (K : Testing) (T : Tracks K) where
  -- The loop ends, and the tracker holds the objects and all that it held.
  Filled : List K.Object → K.Tracker → Type 0
  Filled objects o =
      (o' : K.Tracker) × (add_all K objects o ≡ (ok tt, o'))
      × All (λ (obj : K.Object). T.Holds obj o') objects
      × ((other : K.Object) → T.Holds other o → T.Holds other o')

  added_one :
      (obj : K.Object) (objects : List K.Object) (o o' : K.Tracker)
      → K.add obj o ≡ (none, o')
      → Filled objects o'
      → Filled (obj ∷ objects) o
  unfolding add_all Filled
  added_one obj objects o o' one (t, same, held, keeps) = (
    t,
    ground (arith, one, same),
    (keeps obj (T.added obj o o' one), held),
    λ other h. keeps other (T.kept obj other o o' one h),
  )

  add_all-Filled :
      (objects : List K.Object) (o : K.Tracker) → Accepts K objects o → Filled objects o
  unfolding add_all Filled
  add_all-Filled [] o accepted = (o, refl, tt, λ other h. h)
  add_all-Filled (obj ∷ objects) o (one, others) =
      added_one obj objects o (K.add obj o).1 (λ i. (one i, (K.add obj o).1))
        (add_all-Filled objects (K.add obj o).1 others)

  -- Where the tracker takes each of the objects, the client set is made without a panic, and its tracker
  -- holds them all.
  pub new_simple_clientset-holds :
      (scheme : K.Scheme) (objects : List K.Object)
      → Accepts K objects (K.new_object_tracker scheme)
      → (c : FakeClientset K) × (new_simple_clientset K scheme objects ≡ ok c)
        × All (λ (obj : K.Object). T.Holds obj (tracker_of c)) objects
  unfolding new_simple_clientset clientset_of Filled tracker_of
  new_simple_clientset-holds scheme objects accepted =
      let (o, same, held, _) = add_all-Filled objects (K.new_object_tracker scheme) accepted in
      (record { fake = with_reactors K; tracker = o }, rw same refl, held)
