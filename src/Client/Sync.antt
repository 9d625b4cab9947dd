-- ===== src/Client/Sync.antt =====
-- pkg/client/client.go: the synchronous client. A request is answered by `http`; a send method returns
-- the client, which a response may change, and the error.
pub mod Sends
pub mod Batch
pub mod Delivery
pub mod Methods
pub mod EndToEnd
mod Tests
use logflux_go_sdk.Prelude.{
  ℕ, ◌+◌, ◌*◌, ◌^◌, ℤ, pos, eqb_ℤ, Bool, true, false, not, ◌&&◌, List, [], ◌∷◌, ◌++◌, Option, none,
  some, if◌then◌else◌, ltb, ◌==◌, length, take, Str, codes, str_eq, get_or_else, Except, ok, err,
  ◌>>=◌,
}
use logflux_go_sdk.Models.{Time, Labels, LogEntry, entry_type_log, log_level_info}
use logflux_go_sdk.Retry.Errors.{int_text}
use logflux_go_sdk.Crypto.{Primitives, Encryptor, CryptoError, new_encryptor}
use logflux_go_sdk.Crypto
use logflux_go_sdk.Config.{Config, ConfigError, Strconv, validate_api_key, load_config_from_env}
use logflux_go_sdk.Discovery.{EndpointInfo}
use logflux_go_sdk.Handshake.{HandshakeLimits, HandshakeResult}
use logflux_go_sdk.Client.Validate.{EntryError, Clock, validate_entry}
use logflux_go_sdk.Client.Multipart.{MultipartBuilder, Part, build}
use logflux_go_sdk.Client.Resilient.State.{default_node}
use logflux_go_sdk.Client.Resilient.Enqueue.{Message, entry_of}
use logflux_go_sdk.Client.Resilient.Sending.{hooked, collected}
use logflux_go_sdk.Client.Connect.{Services, ConnectError, require, endpoints_for, session_with}

pub record SyncConfig : Type 0 where
  pub api_key : Str
  pub node : Str
  pub environment : Str
  pub log_group : Str
  pub enable_compression : Bool
  pub custom_endpoint_url : Str
  pub hook : Option (LogEntry → Option LogEntry)

pub record Client : Type 0 where
  pub node : Str
  pub api_key : Str
  pub environment : Str
  pub log_group : Str
  pub encryptor : Encryptor
  pub key_uuid : Str
  pub enable_compression : Bool
  pub hook : Option (LogEntry → Option LogEntry)
  pub limits : Option HandshakeLimits
  pub server_public_key_pem : Str
  pub server_key_fingerprint : Str
  pub rate_limit_limit : ℤ
  pub rate_limit_remaining : ℤ
  pub rate_limit_reset : ℤ
  pub endpoints : EndpointInfo

unfoldable pub client_with : Option Str → SyncConfig → EndpointInfo → HandshakeResult → Client
unfolding new_encryptor
client_with host cfg endpoints r = record {
  node = if length cfg.node == 0 then default_node host else cfg.node;
  api_key = cfg.api_key;
  environment = cfg.environment;
  log_group = cfg.log_group;
  encryptor = new_encryptor r.aes_key;
  key_uuid = r.key_uuid;
  enable_compression = cfg.enable_compression;
  hook = cfg.hook;
  limits = r.limits;
  server_public_key_pem = r.server_public_key_pem;
  server_key_fingerprint = r.server_key_fingerprint;
  rate_limit_limit = pos 0;
  rate_limit_remaining = pos 0;
  rate_limit_reset = pos 0;
  endpoints = endpoints;
}

unfoldable pub new_client_with_config : Services → SyncConfig → Except ConnectError Client
unfolding client_with endpoints_for session_with validate_api_key
new_client_with_config world cfg = do
  _ ← require (validate_api_key cfg.api_key)
  endpoints ← endpoints_for world cfg.api_key cfg.custom_endpoint_url
  result ← session_with world endpoints cfg.api_key
  ok (client_with world.host cfg endpoints result)

unfoldable pub new_client : Services → Str → Str → Except ConnectError Client
unfolding new_client_with_config
new_client world api_key node = new_client_with_config world (record {
  api_key = api_key;
  node = node;
  environment = [];
  log_group = [];
  enable_compression = true;
  custom_endpoint_url = [];
  hook = none;
})

unfoldable pub new_client_with_custom_endpoint :
    Services → Str → Str → Str → Except ConnectError Client
unfolding new_client_with_config
new_client_with_custom_endpoint world api_key custom_endpoint_url node =
    new_client_with_config world (record {
      api_key = api_key;
      node = node;
      environment = [];
      log_group = [];
      enable_compression = true;
      custom_endpoint_url = custom_endpoint_url;
      hook = none;
    })

unfoldable pub close : Client → Client
close c = record c { encryptor = Crypto.close c.encryptor }

unfoldable pub enable_compression_mode : Client → Bool → Client
enable_compression_mode c enable = record c { enable_compression = enable }

pub data EnvError : Type 0 where
  bad_config : ConfigError → EnvError
  no_client : ConnectError → EnvError

-- The node is the caller's: `LOGFLUX_NODE` is not read here.
unfoldable pub config_of_env : Str → Config → SyncConfig
config_of_env node env = record {
  api_key = env.api_key;
  node = node;
  environment = env.environment;
  log_group = env.log_group;
  enable_compression = env.enable_compression;
  custom_endpoint_url = [];
  hook = none;
}

unfoldable pub new_client_from_env : Services → Strconv → (Str → Str) → Str → Except EnvError Client
unfolding load_config_from_env config_of_env new_client_with_config
new_client_from_env world conv getenv node = loaded (load_config_from_env conv getenv)
  where
    connected : Except ConnectError Client → Except EnvError Client
    connected (ok c) = ok c
    connected (err e) = err (no_client e)

    loaded : Except ConfigError Config → Except EnvError Client
    loaded (err e) = err (bad_config e)
    loaded (ok env) = connected (new_client_with_config world (config_of_env node env))
