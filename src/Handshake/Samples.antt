-- ===== src/Handshake/Samples.antt =====
-- A library, a server and its private key that the tests of the handshake use.
use logflux_go_sdk.Prelude.{
  ◌≡◌, refl, pos, true, [], ◌∷◌, Option, none, some, ok, Except, ok_injective, sym, ap, Str, codes,
  replicate,
}
use logflux_go_sdk.Crypto.Rsa.{Library}
use logflux_go_sdk.Handshake.{Request, Reply, responded, Decoders}
use logflux_go_sdk.Handshake.Exchange.{Server}

abbrev pub pem : Str
pem = codes "-----BEGIN PUBLIC KEY-----M-----END PUBLIC KEY-----"

abbrev pub behind : Str → Option Str
behind [] = none
behind (x ∷ xs) = some xs

-- A cipher that puts one byte in front.
abbrev pub library : Library
library = record {
  AnyKey = Str;
  PublicKey = Str;
  decode_pem = λ text. some text;
  parse_pkix = λ block. ok block;
  as_rsa = λ key. some key;
  encrypt_oaep = λ drawn key text. ok (1 ∷ text);
  marshal_pkix = λ key. ok key;
  sha256 = λ text. 171 ∷ [];
  base64 = λ text. 2 ∷ text;
  read = λ n. ok (replicate n 7);
}

abbrev pub json : Decoders
json = record {
  init = λ b. some (record { public_key = pem; supports_multipart = true; limits = none });
  wrapped_init = λ b. none;
  complete = λ b. some (record { key_id = codes " k1 "; key_uuid = [] });
  wrapped_complete = λ b. none;
}

abbrev pub http : Request → Reply
http r = responded (pos 200) (some [])

abbrev pub holder : Server library pem
holder = record {
  unbase64 = behind;
  unbase64-base64 = λ text. refl;
  unseal = behind;
  unseal-encrypt = λ key drawn text sealed parsed h. sealed_text text sealed h;
}
  where
    sealed_text :
        (text sealed : Str)
        → ◌≡◌ {A = Except Str Str} (ok (1 ∷ text)) (ok sealed)
        → behind sealed ≡ some text
    sealed_text text sealed h = sym (ap behind (ok_injective h))
