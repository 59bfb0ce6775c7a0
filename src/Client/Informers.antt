-- ===== src/Client/Informers.antt =====
-- informers/externalversions/factory.go: the factory that shares one informer of each type. A type is
-- known by its name. The mutex of the factory makes every method one step.
pub mod Runs
pub mod Generic
use backup_maker_controller.Prelude.{
  ℕ, String, Bool, true, false, Option, none, some, List, [], ◌∷◌, ◌++◌, Dict, lookup, assign,
  assign_all, if◌then◌else◌,
}

-- What the factory is made for: the client, an informer, and a filter of the lists.
pub record Parts : Type 1 where
  pub Client : Type 0
  pub Informer : Type 0
  pub Tweak : Type 0

-- `running` are the types whose informer a goroutine runs, one entry for each `go informer.Run(stopCh)`.
pub record SharedInformerFactory (T : Parts) : Type 0 where
  pub client : T.Client
  pub namespace : String
  pub tweak_list_options : Option T.Tweak
  pub default_resync : ℕ
  pub custom_resync : Dict ℕ
  pub informers : Dict T.Informer
  pub started_informers : Dict Bool
  pub running : List String

-- `m[k]` of a map of Booleans, whose zero value is false.
unfoldable pub is_set : String → Dict Bool → Bool
unfolding lookup
is_set k m = elim (lookup k m) [ none ↦ false | some b ↦ b ]

-- The informers that were started.
started_only : {I : Type 0} → Dict Bool → Dict I → Dict I
started_only started [] = []
started_only started ((k, informer) ∷ rest) =
    let others = started_only started rest in
    if is_set k started then (k, informer) ∷ others else others

wait_each : {I : Type 0} → (I → Bool) → Dict I → Dict Bool
wait_each synced [] = []
wait_each synced ((k, informer) ∷ rest) = (k, synced informer) ∷ wait_each synced rest

abbrev pub SharedInformerOption : Parts → Type 0
SharedInformerOption T = SharedInformerFactory T → SharedInformerFactory T

module _ {T : Parts} where
  unfoldable pub with_custom_resync_config : Dict ℕ → SharedInformerOption T
  with_custom_resync_config config f = record f {
    custom_resync = assign_all config f.custom_resync;
  }

  unfoldable pub with_tweak_list_options : T.Tweak → SharedInformerOption T
  with_tweak_list_options tweak f = record f { tweak_list_options = some tweak }

  unfoldable pub with_namespace : String → SharedInformerOption T
  with_namespace namespace f = record f { namespace = namespace }

  unfoldable pub apply_options :
      List (SharedInformerOption T) → SharedInformerFactory T → SharedInformerFactory T
  apply_options [] f = f
  apply_options (opt ∷ options) f = apply_options options (opt f)

  unfoldable pub new_shared_informer_factory_with_options :
      T.Client → ℕ → List (SharedInformerOption T) → SharedInformerFactory T
  unfolding apply_options
  new_shared_informer_factory_with_options client default_resync options =
      apply_options options (record {
        client = client;
        namespace = "";
        tweak_list_options = none;
        default_resync = default_resync;
        custom_resync = [];
        informers = [];
        started_informers = [];
        running = [];
      })

  unfoldable pub new_shared_informer_factory : T.Client → ℕ → SharedInformerFactory T
  unfolding new_shared_informer_factory_with_options
  new_shared_informer_factory client default_resync =
      new_shared_informer_factory_with_options client default_resync []

  unfoldable pub new_filtered_shared_informer_factory :
      T.Client → ℕ → String → T.Tweak → SharedInformerFactory T
  unfolding new_shared_informer_factory_with_options with_namespace with_tweak_list_options
  new_filtered_shared_informer_factory client default_resync namespace tweak =
      new_shared_informer_factory_with_options client default_resync
        (with_namespace namespace ∷ with_tweak_list_options tweak ∷ [])

  -- One round of the loop of `Start`.
  start_one : String → SharedInformerFactory T → SharedInformerFactory T
  start_one k f = if is_set k f.started_informers then f else record f {
    started_informers = assign k true f.started_informers;
    running = f.running ++ k ∷ [];
  }

  start_each : Dict T.Informer → SharedInformerFactory T → SharedInformerFactory T
  unfolding start_one
  start_each [] f = f
  start_each ((k, informer) ∷ rest) f = start_each rest (start_one k f)

  unfoldable pub start : SharedInformerFactory T → SharedInformerFactory T
  unfolding start_each
  start f = start_each f.informers f

  -- `synced` is what `cache.WaitForCacheSync(stopCh, informer.HasSynced)` returns for an informer.
  unfoldable pub wait_for_cache_sync : (T.Informer → Bool) → SharedInformerFactory T → Dict Bool
  unfolding started_only wait_each
  wait_for_cache_sync synced f = wait_each synced (started_only f.started_informers f.informers)

  resync_period : String → SharedInformerFactory T → ℕ
  unfolding lookup
  resync_period k f = elim (lookup k f.custom_resync) [
    | none ↦ f.default_resync
    | some period ↦ period
  ]

  make_or_share :
      Option T.Informer
      → String
      → (T.Client → ℕ → T.Informer)
      → SharedInformerFactory T
      → T.Informer × SharedInformerFactory T
  unfolding resync_period
  make_or_share (some informer) k new_func f = (informer, f)
  make_or_share none k new_func f =
      let informer = new_func f.client (resync_period k f) in
      (informer, record f { informers = assign k informer f.informers })

  unfoldable pub informer_for :
      String
      → (T.Client → ℕ → T.Informer)
      → SharedInformerFactory T
      → T.Informer × SharedInformerFactory T
  unfolding make_or_share
  informer_for k new_func f = make_or_share (lookup k f.informers) k new_func f
