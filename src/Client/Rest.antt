-- ===== src/Client/Rest.antt =====
-- A request as the generated client builds it, and `rest.Interface`, which sends it. The client-go library
-- is not part of the repository: it is the record `Rest`, over the state of the server.
use backup_maker_controller.Prelude.{
  ℕ, ◌*◌, ◌%◌, ◌^◌, ◌≤◌, ◌<◌, ◌≡◌, ◌↔◌, arith, String, Bool, Option, none, some, List, Err,
  Fallible,
}

-- metav1.ListOptions, with the fields that the program sets; the others are one text.
pub record ListOptions : Type 0 where
  pub selectors : String
  pub timeout_seconds : Option ℕ
  pub watch : Bool

-- The types of client-go whose values the client only passes on.
pub record RestTypes : Type 1 where
  pub GetOptions : Type 0
  pub CreateOptions : Type 0
  pub UpdateOptions : Type 0
  pub DeleteOptions : Type 0
  pub PatchOptions : Type 0
  pub PatchType : Type 0
  pub Watch : Type 0

module _ (T : RestTypes) (O : Type 0) where
  pub data Verb : Type 0 where
    get : Verb
    post : Verb
    put : Verb
    delete : Verb
    patch : T.PatchType → Verb

  -- `VersionedParams(&opts, …)`
  pub data Params : Type 0 where
    no_params : Params
    get_params : T.GetOptions → Params
    list_params : ListOptions → Params
    create_params : T.CreateOptions → Params
    update_params : T.UpdateOptions → Params
    patch_params : T.PatchOptions → Params

  pub data Body : Type 0 where
    no_body : Body
    object : O → Body
    delete_options : T.DeleteOptions → Body
    bytes : String → Body

  -- The timeout in nanoseconds is a 64-bit word; 0 sets none.
  pub record RestRequest : Type 0 where
    pub verb : Verb
    pub namespace : String
    pub resource : String
    pub name : Option String
    pub subresources : List String
    pub params : Params
    pub timeout : ℕ
    pub body : Body

-- `time.Duration(*seconds) * time.Second`, where the seconds are given.
unfoldable pub duration_of : Option ℕ → ℕ
duration_of none = 0
duration_of (some seconds) = (seconds * 1000000000) % 2 ^ 64

-- A wait in nanoseconds that is not negative as a signed word is the one that was asked for exactly up to
-- 9223372036 seconds; from there on the product wraps.
pub duration_of-exact :
    (seconds : ℕ)
    → ((duration_of (some seconds) ≡ seconds * 1000000000) × (duration_of (some seconds) < 2 ^ 63))
      ↔ (seconds ≤ 9223372036)
unfolding duration_of
duration_of-exact seconds = (λ h. omega arith, λ h. omega arith)

-- `Do(ctx).Into(&object)` fills an object that it is given, and may leave it as it was beside an error; a
-- request that only reads leaves the server as it is.
pub record Rest (T : RestTypes) (S O : Type 0) : Type 0 where
  pub read : RestRequest T O → O → S → O × Option Err
  pub read_list : RestRequest T O → List O → S → List O × Option Err
  pub start_watch : RestRequest T O → S → Fallible T.Watch
  pub write : RestRequest T O → O → S → (O × Option Err) × S
  -- `Do(ctx).Error()`
  pub error : RestRequest T O → S → Option Err × S
