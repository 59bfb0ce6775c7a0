-- ===== src/Client/Clientset/Shared.antt =====
-- The two clients of a client set share one limiter.
use backup_maker_controller.Prelude.{
  ◌≡◌, refl, arith, false, Bool-cases, inl, inr, Option, some, Fallible, gives, fails,
}
use backup_maker_controller.Client.Connect.{Config, set_config_defaults, new_for_config}
use backup_maker_controller.Client.Clientset.{
  Kit, Limits, Packages, Clientset, is_positive, is_unlimited, with_limiter, with_discovery,
  with_client, with_config, clientset_for_config,
}

module _ {K : Kit} (G : Packages K) where
  abbrev pub with_rate_limiter : Config (Limits K) → Option K.Limiter → Config (Limits K)
  with_rate_limiter c limiter = record c { others = record c.others { rate_limiter = limiter } }

  -- How a client set was made: both clients from one configuration, that of the caller but for the limiter, in
  -- which the rate is limited by a limiter or there is no rate.
  pub record IsShared (c : Config (Limits K)) (cs : Clientset K) : Type 0 where
    pub limiter : Option K.Limiter
    pub limited : is_unlimited G (with_rate_limiter c limiter) ≡ false
    pub made :
        G.rest_client_for (set_config_defaults G.default_agent (with_rate_limiter c limiter))
        ≡ gives cs.riotkit_v1alpha1
    pub discovers :
        G.new_discovery_client_for_config (with_rate_limiter c limiter) ≡ gives cs.discovery_client

  module _ (c : Config (Limits K)) (cs : Clientset K) (limiter : Option K.Limiter)
      (limited : is_unlimited G (with_rate_limiter c limiter) ≡ false) where
    with_client-IsShared :
        (client : Fallible K.Client)
        → G.rest_client_for (set_config_defaults G.default_agent (with_rate_limiter c limiter))
          ≡ client
        → (discovery : Fallible K.Discovery)
        → G.new_discovery_client_for_config (with_rate_limiter c limiter) ≡ discovery
        → with_client G (with_rate_limiter c limiter) client ≡ gives cs
        → IsShared c cs
    unfolding with_client with_discovery
    with_client-IsShared (fails e) made discovery discovers done = absurd (ground (arith, done))
    with_client-IsShared (gives client) made (fails e) discovers done =
        absurd (ground (arith, done, discovers))
    with_client-IsShared (gives client) made (gives d) discovers done = record {
      limiter = limiter;
      limited = limited;
      made = ground (arith, made, done, discovers);
      discovers = ground (arith, done, discovers);
    }

    with_config-IsShared :
        with_config G (gives (with_rate_limiter c limiter)) ≡ gives cs → IsShared c cs
    unfolding with_config new_for_config
    with_config-IsShared done =
        with_client-IsShared
          (G.rest_client_for (set_config_defaults G.default_agent (with_rate_limiter c limiter)))
          refl (G.new_discovery_client_for_config (with_rate_limiter c limiter)) refl done

  -- A client set that was made has both clients from one configuration: that of the caller, with the limiter
  -- that it had, or else with a new one if it asks for a rate. So no client set sends requests at a
  -- rate that is asked for and not limited, and the two clients share the limit.
  pub clientset_for_config-IsShared :
      (c : Config (Limits K)) (cs : Clientset K)
      → clientset_for_config G c ≡ gives cs
      → IsShared c cs
  unfolding clientset_for_config with_limiter
  clientset_for_config-IsShared c cs done = elim (Bool-cases (is_unlimited G c)) [
    | inr e ↦ with_config-IsShared c cs c.others.rate_limiter e (ground (arith, e, done))
    | inl e ↦ elim (Bool-cases (is_positive c.others.burst)) [
      | inl p ↦
          with_config-IsShared c cs
            (some (G.new_token_bucket_rate_limiter c.others.qps c.others.burst)) refl
            (ground (arith, e, p, done))
      | inr p ↦ absurd (ground (arith, e, p, done))
    ]
  ]
