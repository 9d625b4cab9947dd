-- ===== src/Client/Connect/Tests.antt =====
-- The theorems about the constructors of pkg/client and about masks at concrete inputs.
use logflux_go_sdk.Prelude.{
  ◌≡◌, refl, ◌++◌, true, none, ok, codes, if◌then◌else◌, leb, length, drop, ◌-◌, replicate, str_eq,
  has_prefix, contains, arith,
}
use logflux_go_sdk.Config.{is_region}
use logflux_go_sdk.Config.Key.{HasFormat}
use logflux_go_sdk.Handshake.{HandshakeResult}
use logflux_go_sdk.Client.Resilient.State.{ResilientClient, apply_defaults}
use logflux_go_sdk.Client.Resilient.Samples.{exact}
use logflux_go_sdk.Client.Connect.{
  client_of, default_resilient_client_config, new_resilient_client_with_handshake, mask_api_key,
}
use logflux_go_sdk.Client.Connect.Samples.{key, pem, world}
use logflux_go_sdk.Client.Connect.Fresh.{IsReady, new_resilient_client-IsReady}
use logflux_go_sdk.Client.Connect.Mask.{mask_api_key-valid}

abbrev session : HandshakeResult
session = record {
  aes_key = replicate 32 7;
  key_uuid = codes "k1";
  server_public_key_pem = pem;
  server_key_fingerprint = codes "f";
  limits = none;
  supports_multipart = true;
}

abbrev made : ResilientClient
made = client_of world exact (apply_defaults world.host default_resilient_client_config) session

connected :
    new_resilient_client_with_handshake world exact key
      (codes "https://in")
      default_resilient_client_config
    ≡ ok made
unfolding new_resilient_client_with_handshake str_eq has_prefix contains
connected = refl

new_resilient_client-IsReady_example : IsReady world exact key default_resilient_client_config made
new_resilient_client-IsReady_example =
    new_resilient_client-IsReady world exact key default_resilient_client_config
      (codes "https://in") made connected

key-HasFormat : HasFormat key (codes "eu") (codes "abc123xyz")
unfolding is_region str_eq
key-HasFormat = record { known = refl; split = refl; not_empty = omega arith }

mask_api_key-valid_example : mask_api_key key ≡ (
    if leb (length key) 8
    then codes "****"
    else codes "eu" ++ (codes "-lf_****" ++ drop (length key - 4) key))
mask_api_key-valid_example = mask_api_key-valid key (codes "eu") (codes "abc123xyz") key-HasFormat
