-- ===== src/Client/Connect.antt =====
-- pkg/client: the constructors of both clients, which check the key, find the service and exchange a key
-- with it. The retryer and Go's HTTP client are no part of the client's state here.
pub mod Fresh
pub mod Mask
pub mod Samples
mod Tests
use logflux_go_sdk.Prelude.{
  ℕ, suc, ◌+◌, ◌-◌, ◌*◌, ◌++◌, ◌∷◌, leb, take, drop, has_prefix, ℤ, pos, Bool, true, false, List,
  [], Option, none, some, if◌then◌else◌, length, ◌==◌, Str, codes, str_eq, Except, ok, err, ◌>>=◌,
}
use logflux_go_sdk.Models.{LogEntry}
use logflux_go_sdk.Queue.{new_queue}
use logflux_go_sdk.Crypto.{Encryptor, new_encryptor}
use logflux_go_sdk.Config.{KeyError, validate_api_key}
use logflux_go_sdk.Discovery.{
  EndpointInfo, DiscoveryError, new_discovery_client, set_custom_endpoint, get_handshake_url,
}
use logflux_go_sdk.Discovery.Attempts.{discover_endpoints}
use logflux_go_sdk.Discovery
use logflux_go_sdk.Handshake.{
  HandshakeResult, HandshakeError, HandshakeLimits, Rsa, perform_handshake_with_url,
}
use logflux_go_sdk.Handshake
use logflux_go_sdk.Client.Resilient.State.{
  ClientConfig, ResilientClient, no_drops, apply_defaults, default_node,
}

-- What the constructors use of the world: the answers to requests, the decoders, RSA, the name of the
-- host, and the bytes of a new key.
pub record Services : Type 1 where
  pub discovery_json : Discovery.Decoders
  pub discovery_http : ℕ → Discovery.Request → Discovery.Reply
  pub handshake_json : Handshake.Decoders
  pub handshake_http : Handshake.Request → Handshake.Reply
  pub rsa : Rsa
  pub host : Option Str
  pub fresh_key : Option Str

pub data ConnectError : Type 0 where
  invalid_key : KeyError → ConnectError
  no_endpoints : DiscoveryError → ConnectError
  no_session : HandshakeError → ConnectError

abbrev pub require : Option KeyError → Except ConnectError (Unit {0})
require none = ok tt
require (some e) = err (invalid_key e)

abbrev pub found : Except DiscoveryError EndpointInfo → Except ConnectError EndpointInfo
found (ok e) = ok e
found (err e) = err (no_endpoints e)

abbrev pub shaken : Except HandshakeError HandshakeResult → Except ConnectError HandshakeResult
shaken (ok r) = ok r
shaken (err e) = err (no_session e)

module _ (world : Services) where
  -- A custom endpoint is taken as it is.
  unfoldable pub endpoints_for : Str → Str → Except ConnectError EndpointInfo
  unfolding discover_endpoints new_discovery_client set_custom_endpoint
  endpoints_for api_key custom_url =
      if str_eq custom_url []
      then found
          (discover_endpoints world.discovery_json world.discovery_http
            (new_discovery_client api_key)).1
      else ok (set_custom_endpoint custom_url)

  unfoldable pub session_with : EndpointInfo → Str → Except ConnectError HandshakeResult
  unfolding perform_handshake_with_url get_handshake_url
  session_with e api_key = shaken (
      perform_handshake_with_url world.handshake_json world.rsa world.handshake_http world.fresh_key
        (get_handshake_url e) api_key)

  -- The client as it is before the workers start. `grow` is how `append` grows the queue's slice.
  unfoldable pub client_of : (ℕ → ℕ → ℕ) → ClientConfig → HandshakeResult → ResilientClient
  unfolding new_encryptor new_queue
  client_of grow config r = record {
    config = config;
    encryptor = new_encryptor r.aes_key;
    key_uuid = r.key_uuid;
    queue = new_queue grow config.queue_size;
    total_sent = 0;
    total_queued = 0;
    total_dropped = 0;
    drop_reasons = no_drops;
    last_send_error = [];
    last_send_time = 0;
    handshake_ok = true;
    rate_limit_limit = pos 0;
    rate_limit_remaining = pos 0;
    rate_limit_reset = pos 0;
    rate_limit_pause_until = 0;
    quota_blocked = λ category. false;
    closed = false;
  }

  unfoldable pub new_resilient_client_with_handshake :
      (ℕ → ℕ → ℕ) → Str → Str → ClientConfig → Except ConnectError ResilientClient
  unfolding endpoints_for session_with client_of apply_defaults validate_api_key
  new_resilient_client_with_handshake grow api_key custom_url cfg = do
    _ ← require (validate_api_key api_key)
    endpoints ← endpoints_for api_key custom_url
    result ← session_with endpoints api_key
    ok (client_of grow (apply_defaults world.host cfg) result)

  -- A renewed session: the key and its id are replaced, and nothing else.
  unfoldable pub renew_session :
      EndpointInfo → Str → ResilientClient → Except ConnectError ResilientClient
  unfolding session_with new_encryptor
  renew_session endpoints api_key c = do
    result ← session_with endpoints api_key
    ok (record c { encryptor = new_encryptor result.aes_key; key_uuid = result.key_uuid })

-- `DefaultResilientClientConfig`, without what the retryer gets.
unfoldable pub default_resilient_client_config : ClientConfig
default_resilient_client_config = record {
  node = [];
  queue_size = pos 1000;
  flush_interval = pos (5 * 1_000_000_000);
  batch_size = pos 100;
  http_timeout = pos (30 * 1_000_000_000);
  worker_count = pos 2;
  failsafe_mode = true;
  enable_compression = true;
  hook = none;
}

unfoldable pub fault_tolerant_client_config : ClientConfig
unfolding default_resilient_client_config
fault_tolerant_client_config = record default_resilient_client_config {
  queue_size = pos 2000;
  flush_interval = pos (3 * 1_000_000_000);
  http_timeout = pos (45 * 1_000_000_000);
  worker_count = pos 3;
}

-- strings.Index
unfoldable pub index_of : Str → Str → Option ℕ
index_of [] p = if has_prefix [] p then some 0 else none
index_of (x ∷ xs) p =
    let rest = index_of xs p in if has_prefix (x ∷ xs) p then some 0 else next rest
  where
    next : Option ℕ → Option ℕ
    next none = none
    next (some i) = some (i + 1)

abbrev pub masked_at : Option ℕ → Str → Str
masked_at none key = codes "****" ++ drop (length key - 4) key
masked_at (some i) key = take (i + 3) key ++ (codes "****" ++ drop (length key - 4) key)

unfoldable pub mask_api_key : Str → Str
unfolding index_of
mask_api_key key =
    if leb (length key) 8 then codes "****" else masked_at (index_of key (codes "lf_")) key
