-- ===== src/Client/Informers/Runs.antt =====
-- Each informer is shared, and runs once.
use backup_maker_controller.Prelude.{
  ℕ, String, ◌≡◌, refl, arith, Bool, true, Option, none, some, [], ◌∷◌, count, count-append, Dict,
  lookup, lookup-assign, lookup-nil, eq_iff, if◌then◌else◌,
}
use backup_maker_controller.Client.Informers.{
  Parts, SharedInformerFactory, is_set, apply_options, start_one, start_each, start, resync_period,
  make_or_share, informer_for, new_shared_informer_factory,
}

-- The factories that calls of the methods lead to.
pub data Later {T : Parts} (f : SharedInformerFactory T) : SharedInformerFactory T → Type 0 where
  here : Later f f
  asked :
      {g : SharedInformerFactory T} (k : String) (new_func : T.Client → ℕ → T.Informer)
      → Later f g
      → Later f (informer_for k new_func g).1
  started : {g : SharedInformerFactory T} → Later f g → Later f (start g)

-- A type is marked as started exactly where one goroutine runs its informer.
abbrev pub RunsOnce : {T : Parts} → SharedInformerFactory T → Type 0
RunsOnce f = (k : String) → count k f.running ≡ (if is_set k f.started_informers then 1 else 0)

module _ {T : Parts} where
  start_one-RunsOnce :
      (k : String) (f : SharedInformerFactory T) → RunsOnce f → RunsOnce (start_one k f)
  unfolding start_one is_set
  start_one-RunsOnce k f h j = ground (
    arith,
    h j,
    h k,
    lookup-assign j k true f.started_informers,
    count-append j f.running (k ∷ []),
    eq_iff k j,
  )

  start_each-RunsOnce :
      (m : Dict T.Informer) (f : SharedInformerFactory T) → RunsOnce f → RunsOnce (start_each m f)
  unfolding start_each
  start_each-RunsOnce [] f h = h
  start_each-RunsOnce ((k, informer) ∷ m) f h =
      start_each-RunsOnce m (start_one k f) (start_one-RunsOnce k f h)

  asked-RunsOnce :
      (o : Option T.Informer) (k : String) (new_func : T.Client → ℕ → T.Informer)
      (f : SharedInformerFactory T)
      → RunsOnce f
      → RunsOnce (make_or_share o k new_func f).1
  unfolding make_or_share
  asked-RunsOnce none k new_func f h = h
  asked-RunsOnce (some informer) k new_func f h = h

  -- However often a new factory is asked for informers and started, in whatever order, no informer runs
  -- twice: the informer of a type runs in one goroutine if the type is marked as started, and in
  -- none if it is not.
  pub Later-RunsOnce :
      (client : T.Client) (resync : ℕ) {f : SharedInformerFactory T}
      → Later (new_shared_informer_factory client resync) f
      → RunsOnce f
  unfolding new_shared_informer_factory apply_options informer_for start is_set
  Later-RunsOnce client resync here = λ k. ground (arith, lookup-nil {V = Bool} k)
  Later-RunsOnce client resync (asked {g = g} k new_func r) =
      asked-RunsOnce (lookup k g.informers) k new_func g (Later-RunsOnce client resync r)
  Later-RunsOnce client resync (started {g = g} r) =
      start_each-RunsOnce g.informers g (Later-RunsOnce client resync r)

  -- Starting changes no informer.
  start_each-informers :
      (m : Dict T.Informer) (f : SharedInformerFactory T) → (start_each m f).informers ≡ f.informers
  unfolding start_each start_one
  start_each-informers [] f = refl
  start_each-informers ((k, informer) ∷ m) f =
      ground (arith, start_each-informers m (start_one k f))

  -- An informer that the factory has stays the one of its type.
  asked-lookup :
      (o : Option T.Informer) (j k : String) (new_func : T.Client → ℕ → T.Informer)
      (f : SharedInformerFactory T) (i : T.Informer)
      → lookup j f.informers ≡ o
      → lookup k f.informers ≡ some i
      → lookup k (make_or_share o j new_func f).1.informers ≡ some i
  unfolding make_or_share
  asked-lookup none j k new_func f i e h = ground (
    arith,
    e,
    h,
    eq_iff j k,
    lookup-assign k j (new_func f.client (resync_period j f)) f.informers,
  )
  asked-lookup (some _) j k new_func f i e h = h

  Later-lookup :
      {f g : SharedInformerFactory T} (k : String) (i : T.Informer)
      → Later f g
      → lookup k f.informers ≡ some i
      → lookup k g.informers ≡ some i
  unfolding informer_for start
  Later-lookup k i here h = h
  Later-lookup k i (asked {g = g} j new_func r) h =
      asked-lookup (lookup j g.informers) j k new_func g i refl (Later-lookup k i r h)
  Later-lookup k i (started {g = g} r) h =
      rw (start_each-informers g.informers g) (Later-lookup k i r h)

  first_lookup :
      (o : Option T.Informer) (k : String) (new_func : T.Client → ℕ → T.Informer)
      (f : SharedInformerFactory T)
      → lookup k f.informers ≡ o
      → let (i, g) = make_or_share o k new_func f in lookup k g.informers ≡ some i
  unfolding make_or_share
  first_lookup none k new_func f h =
      ground
        (arith, eq_iff k k, lookup-assign k k (new_func f.client (resync_period k f)) f.informers)
  first_lookup (some i) k new_func f h = h

  -- All who ask for a type share one informer: whatever is asked for and started in between, a later call
  -- for the type returns what the first one returned, whatever function it would make one with, and
  -- changes nothing.
  pub informer_for_shares :
      (k : String) (new_func new_func' : T.Client → ℕ → T.Informer) (f : SharedInformerFactory T)
      {g : SharedInformerFactory T}
      → Later (informer_for k new_func f).1 g
      → informer_for k new_func' g ≡ ((informer_for k new_func f).0, g)
  unfolding informer_for make_or_share
  informer_for_shares k new_func new_func' f later =
      rw
        (Later-lookup k (informer_for k new_func f).0 later
          (first_lookup (lookup k f.informers) k new_func f refl))
        refl

  start_each-is_set :
      (m : Dict T.Informer) (f : SharedInformerFactory T) (j : String)
      → is_set j f.started_informers ≡ true
      → is_set j (start_each m f).started_informers ≡ true
  unfolding start_each start_one is_set
  start_each-is_set [] f j h = h
  start_each-is_set ((k, informer) ∷ m) f j h =
      start_each-is_set m (start_one k f) j
        (ground (arith, h, lookup-assign j k true f.started_informers))

  start_one-idle :
      (k : String) (f : SharedInformerFactory T)
      → is_set k f.started_informers ≡ true
      → start_one k f ≡ f
  unfolding start_one
  start_one-idle k f h = ground (arith, h)

  start_one-is_set :
      (k : String) (f : SharedInformerFactory T) → is_set k (start_one k f).started_informers ≡ true
  unfolding start_one is_set
  start_one-is_set k f = ground (arith, eq_iff k k, lookup-assign k k true f.started_informers)

  start_each-again :
      (m : Dict T.Informer) (f : SharedInformerFactory T) {g : SharedInformerFactory T}
      → g ≡ start_each m f
      → start_each m g ≡ g
  unfolding start_each
  start_each-again [] f h = refl
  start_each-again ((k, informer) ∷ m) f {g = g} h =
      let set : is_set k g.started_informers ≡ true =
        rw h (start_each-is_set m (start_one k f) k (start_one-is_set k f)) in
      rw (start_one-idle k g set) (start_each-again m (start_one k f) h)

  -- Starting twice is starting once.
  pub start_start : (f : SharedInformerFactory T) → start (start f) ≡ start f
  unfolding start
  start_start f = rw (start_each-informers f.informers f) (start_each-again f.informers f refl)
