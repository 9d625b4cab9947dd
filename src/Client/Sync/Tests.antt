-- ===== src/Client/Sync/Tests.antt =====
-- The theorems about the synchronous client of pkg/client/client.go at concrete inputs.
use logflux_go_sdk.Prelude.{
  has_prefix, contains, str_eq, ◌≡◌, refl, sym, ap, ◌⊎◌, ℕ, pos, true, List, [], ◌∷◌, Option, none,
  some, ok, Str, codes, replicate,
}
use logflux_go_sdk.Models.{Time, LogEntry, entry_type_requires_encryption}
use logflux_go_sdk.Crypto.{Primitives, IsSound, encrypt_raw}
use logflux_go_sdk.Client.Validate.{
  validate_entry, max_message_length, validate_timestamp, validate_log_level, validate_entry_type,
  validate_labels,
}
use logflux_go_sdk.Client.Multipart.{Part, build}
use logflux_go_sdk.Client.Resilient.Enqueue.{Message}
use logflux_go_sdk.Client.Resilient.Samples.{draws, started}
use logflux_go_sdk.Crypto.Rsa.{generate_aes_key}
use logflux_go_sdk.Handshake.Exchange.{handshake_rsa}
use logflux_go_sdk.Handshake.Samples.{pem, library, holder}
use logflux_go_sdk.Client.Connect.Samples.{key}
use logflux_go_sdk.Client.Connect.Samples
use logflux_go_sdk.Client.Sync.{Client, SyncConfig, new_client_with_config}
use logflux_go_sdk.Client.Sync.EndToEnd.{keyed, HasKey, IsRead, send_log_batch-IsRead}
use logflux_go_sdk.Client.Resilient.Meant.{Kept}
use logflux_go_sdk.Client.Sync.Sends.{Transport, responded, ErrorBody, send_log_batch, send_entry}
use logflux_go_sdk.Client.Sync.Methods.{World, send_to}
use logflux_go_sdk.Client.Sync.Methods
use logflux_go_sdk.Logger.Methods.{Logger, call_warn, perform, returns}
use logflux_go_sdk.Logger.Methods.Delivery.{Delivered, perform-Delivered}

abbrev rest : Str → Option Str
rest [] = none
rest (x ∷ xs) = some xs

-- A cipher and a compression that only put one byte in front.
abbrev prefixing : Primitives
prefixing = record {
  seal = λ key nonce text. 1 ∷ text;
  unseal = λ key nonce text. rest text;
  gzip = λ text. some (2 ∷ text);
  gunzip = rest;
  base64 = λ text. text;
  unbase64 = λ text. some text;
}

prefixing-IsSound : IsSound prefixing
prefixing-IsSound = record {
  unseal-seal = λ key nonce text. refl;
  gunzip-gzip = λ text z h. sym (ap get_rest h);
  unbase64-base64 = λ text. refl;
}
  where
    get_rest : Option Str → Option Str
    get_rest none = none
    get_rest (some z) = rest z

abbrev plain_time : Time → Str
plain_time t = codes "2026-01-01T00:00:00Z"

abbrev no_body : Str → Option ErrorBody
no_body text = none

abbrev client : Client
client = record {
  node = codes "host";
  api_key = codes "eu-lf_abc";
  environment = [];
  log_group = [];
  encryptor = record { aes_key = replicate 32 7 };
  key_uuid = codes "k1";
  enable_compression = true;
  hook = none;
  limits = none;
  server_public_key_pem = [];
  server_key_fingerprint = [];
  rate_limit_limit = pos 0;
  rate_limit_remaining = pos 0;
  rate_limit_reset = pos 0;
  endpoints = record {
    base_url = codes "https://in";
    region = [];
    capabilities = [];
    rate_limit = none;
    metadata = none;
  };
}

-- A server that takes every request, and nonces of twelve equal bytes.
abbrev accepting : List Part → Transport
accepting parts = responded (record {
  status_code = pos 202;
  limit = some (pos 10);
  remaining = none;
  reset = none;
  retry_after = [];
  body = [];
})

abbrev nonces : ℕ → Option Str
nonces i = some (replicate 12 i)

abbrev batch : List Message
batch = started ∷ record started { text = codes "ready" } ∷ []

taken :
    (send_log_batch prefixing plain_time no_body client draws.clock nonces accepting batch).1 ≡ none
unfolding send_log_batch validate_entry max_message_length validate_timestamp validate_log_level
    validate_entry_type validate_labels build entry_type_requires_encryption encrypt_raw
taken = refl

abbrev world : World
world = record {
  primitives = prefixing;
  format = plain_time;
  decode = no_body;
  clock = draws.clock;
  draws = nonces;
  http = accepting;
}

abbrev logger : Logger
logger = record { client = client; prefix = codes "api" }

warned : (perform world logger (call_warn (codes "slow"))).1 ≡ returns none
unfolding perform Methods.warn send_to send_entry validate_entry max_message_length
    validate_timestamp validate_log_level validate_entry_type validate_labels build
    entry_type_requires_encryption encrypt_raw str_eq
warned = refl

perform-Delivered_example : Delivered world logger (call_warn (codes "slow"))
perform-Delivered_example =
    perform-Delivered world prefixing-IsSound logger refl (call_warn (codes "slow")) warned

abbrev config : SyncConfig
config = record {
  api_key = key;
  node = codes "host";
  environment = [];
  log_group = [];
  enable_compression = true;
  custom_endpoint_url = codes "https://in";
  hook = none;
}

abbrev opened : Client
opened = record client {
  api_key = key;
  key_uuid = codes "k1";
  server_public_key_pem = pem;
  server_key_fingerprint = codes "SHA256:ab";
}

opens : new_client_with_config (keyed Samples.world library []) config ≡ ok opened
unfolding new_client_with_config handshake_rsa generate_aes_key str_eq has_prefix contains
opens = refl

sent :
    (send_log_batch prefixing plain_time no_body opened draws.clock nonces accepting batch).1 ≡ none
unfolding send_log_batch validate_entry max_message_length validate_timestamp validate_log_level
    validate_entry_type validate_labels build entry_type_requires_encryption encrypt_raw
sent = refl

send_log_batch-IsRead_example :
    (k : HasKey Samples.world library [] config opened holder) × (entries : List LogEntry) × Kept
      draws.clock opened.node opened.hook batch entries
    × ((entries ≡ [])
        ⊎ IsRead Samples.world library [] config prefixing plain_time no_body prefixing-IsSound
            opened holder k.secret accepting entries)
send_log_batch-IsRead_example =
    send_log_batch-IsRead Samples.world library [] config prefixing plain_time no_body
      prefixing-IsSound opened holder draws.clock nonces accepting batch opens sent
