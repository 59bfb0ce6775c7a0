-- ===== src/Client/Clientset.antt =====
-- clientset.go: the client set is made of the client of the group and the client that discovers, which
-- share one limiter of requests.
pub mod Shared
use backup_maker_controller.Prelude.{
  ℕ, ltb, String, ◌≡◌, refl, arith, Bool, true, false, not, ◌&&◌, Option, none, some, Err, Fallible,
  gives, fails, Res, ok, err, panic, if◌then◌else◌,
}
use backup_maker_controller.Client.Connect.{
  Config, set_config_defaults, new_for_config, new_for_config_or_die,
}

pub data ℤ : Type 0 where
  pos : ℕ → ℤ
  -- One less than the negative of the number.
  negsuc : ℕ → ℤ

is_positive : ℤ → Bool
is_positive (pos n) = ltb 0 n
is_positive (negsuc n) = false

-- The types and the functions of client-go. A configuration has the limiter, the rate and the burst, beside
-- what is only passed on.
pub record Kit : Type 1 where
  pub Limiter : Type 0
  pub Qps : Type 0
  pub Others : Type 0
  pub Client : Type 0
  pub Discovery : Type 0

pub record Limits (K : Kit) : Type 0 where
  pub rate_limiter : Option K.Limiter
  pub qps : K.Qps
  pub burst : ℤ
  pub others : K.Others

pub record Packages (K : Kit) : Type 0 where
  pub qps_positive : K.Qps → Bool
  pub new_token_bucket_rate_limiter : K.Qps → ℤ → K.Limiter
  pub rest_client_for : Config (Limits K) → Fallible K.Client
  pub new_discovery_client_for_config : Config (Limits K) → Fallible K.Discovery
  pub new_discovery_client : K.Client → K.Discovery
  pub default_agent : String

pub record Clientset (K : Kit) : Type 0 where
  pub discovery_client : K.Discovery
  pub riotkit_v1alpha1 : K.Client

-- `Discovery` of a pointer to a client set.
unfoldable pub discovery : {K : Kit} → Option (Clientset K) → Option K.Discovery
discovery none = none
discovery (some c) = some c.discovery_client

module _ {K : Kit} (G : Packages K) where
  abbrev pub is_unlimited : Config (Limits K) → Bool
  is_unlimited c = elim c.others.rate_limiter [
    | none ↦ G.qps_positive c.others.qps
    | some limiter ↦ false
  ]

  -- The copy of the configuration, with a limiter where the rate asks for one.
  with_limiter : Config (Limits K) → Fallible (Config (Limits K))
  unfolding is_positive
  with_limiter c =
      if is_unlimited c
      then (if not (is_positive c.others.burst)
          then fails (
              Err.new
                "burst is required to be greater than 0 when RateLimiter is not set and QPS is set to greater than 0")
          else gives (record c {
            others = record c.others {
              rate_limiter = some (G.new_token_bucket_rate_limiter c.others.qps c.others.burst);
            };
          }))
      else gives c

  with_discovery : K.Client → Fallible K.Discovery → Fallible (Clientset K)
  with_discovery client (fails e) = fails e
  with_discovery client (gives d) =
      gives (record { discovery_client = d; riotkit_v1alpha1 = client })

  with_client : Config (Limits K) → Fallible K.Client → Fallible (Clientset K)
  unfolding with_discovery
  with_client c (fails e) = fails e
  with_client c (gives client) = with_discovery client (G.new_discovery_client_for_config c)

  with_config : Fallible (Config (Limits K)) → Fallible (Clientset K)
  unfolding with_client new_for_config
  with_config (fails e) = fails e
  with_config (gives c) = with_client c (new_for_config G.rest_client_for G.default_agent c)

  unfoldable pub clientset_for_config : Config (Limits K) → Fallible (Clientset K)
  unfolding with_limiter with_config
  clientset_for_config c = with_config (with_limiter c)

  discovery_or_panic : K.Client → Fallible K.Discovery → Res (Clientset K)
  discovery_or_panic client (fails e) = panic
  discovery_or_panic client (gives d) =
      ok (record { discovery_client = d; riotkit_v1alpha1 = client })

  client_and_discovery : Config (Limits K) → Res K.Client → Res (Clientset K)
  unfolding discovery_or_panic
  client_and_discovery c (ok client) =
      discovery_or_panic client (G.new_discovery_client_for_config c)
  client_and_discovery c (err e) = err e
  client_and_discovery c panic = panic

  -- No limiter is set here: each of the two gets the configuration of the caller.
  unfoldable pub clientset_for_config_or_die : Config (Limits K) → Res (Clientset K)
  unfolding client_and_discovery new_for_config_or_die
  clientset_for_config_or_die c =
      client_and_discovery c (new_for_config_or_die G.rest_client_for G.default_agent c)

  unfoldable pub new_clientset : K.Client → Clientset K
  new_clientset client = record {
    discovery_client = G.new_discovery_client client;
    riotkit_v1alpha1 = client;
  }
