-- ===== src/Handshake/Tests.antt =====
-- The theorem about the exchange of keys of pkg/handshake/handshake.go at a concrete exchange.
use logflux_go_sdk.Prelude.{true, none, Str, codes, replicate}
use logflux_go_sdk.Handshake.{HandshakeResult}
use logflux_go_sdk.Handshake.Samples.{pem}

abbrev session : HandshakeResult
session = record {
  aes_key = replicate 32 7;
  key_uuid = codes "k1";
  server_public_key_pem = pem;
  server_key_fingerprint = codes "SHA256:ab";
  limits = none;
  supports_multipart = true;
}

abbrev url : Str
url = codes "https://in/v1/handshake"
