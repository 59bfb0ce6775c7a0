-- ===== src/Client/Connect.antt =====
-- riotkit_client.go: the client of the group is made from a configuration. `rest.RESTClientFor` is not part
-- of the repository.
use backup_maker_controller.Prelude.{
  String, ◌==◌, Fallible, gives, fails, Res, ok, panic, Bool, true, if◌then◌else◌,
}

-- rest.Config, with the fields that are set here; the rest is passed on.
pub record Config (Rest : Type 0) : Type 0 where
  pub group : String
  pub version : String
  pub api_path : String
  -- `scheme.Codecs.WithoutConversion()` is the serializer.
  pub without_conversion : Bool
  pub user_agent : String
  pub others : Rest

unfoldable pub set_config_defaults : {Rest : Type 0} → String → Config Rest → Config Rest
set_config_defaults default_agent config = record config {
  group = "riotkit.org";
  version = "v1alpha1";
  api_path = "/apis";
  without_conversion = true;
  user_agent = if config.user_agent == "" then default_agent else config.user_agent;
}

-- The configuration of the caller is copied before it is changed.
unfoldable pub new_for_config :
    {Rest Client : Type 0}
    → (Config Rest → Fallible Client)
    → String
    → Config Rest
    → Fallible Client
unfolding set_config_defaults
new_for_config rest_client_for default_agent config =
    rest_client_for (set_config_defaults default_agent config)

client_or_panic : {Client : Type 0} → Fallible Client → Res Client
client_or_panic (gives client) = ok client
client_or_panic (fails e) = panic

unfoldable pub new_for_config_or_die :
    {Rest Client : Type 0} → (Config Rest → Fallible Client) → String → Config Rest → Res Client
unfolding new_for_config client_or_panic
new_for_config_or_die rest_client_for default_agent config =
    client_or_panic (new_for_config rest_client_for default_agent config)
