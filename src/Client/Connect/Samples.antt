-- ===== src/Client/Connect/Samples.antt =====
-- pkg/client: a key and a server that the tests of the constructors use.
use logflux_go_sdk.Prelude.{pos, true, [], none, some, codes, Str, replicate}
use logflux_go_sdk.Discovery.{no_response}
use logflux_go_sdk.Handshake.{responded}
use logflux_go_sdk.Client.Connect.{Services}

abbrev pub key : Str
key = codes "eu-lf_abc123xyz"

abbrev pub pem : Str
pem = codes "-----BEGIN PUBLIC KEY-----M-----END PUBLIC KEY-----"

-- A server that answers every request with a PEM key and a key id.
abbrev pub world : Services
world = record {
  discovery_json = record { static = λ b. none; spec = λ b. none; wrapped = λ b. none };
  discovery_http = λ i r. no_response [];
  handshake_json = record {
    init = λ b. some (record { public_key = pem; supports_multipart = true; limits = none });
    wrapped_init = λ b. none;
    complete = λ b. some (record { key_id = codes " k1 "; key_uuid = [] });
    wrapped_complete = λ b. none;
  };
  handshake_http = λ r. responded (pos 200) (some []);
  rsa = record {
    PublicKey = Str;
    parse = λ text. some text;
    fingerprint = λ key. some (codes "f");
    encrypt = λ key secret. some secret;
  };
  host = some (codes "host");
  fresh_key = some (replicate 32 7);
}
