-- ===== src/Handshake/Exchange.antt =====
-- pkg/handshake/handshake.go with pkg/crypto/rsa.go: the key that a handshake hands to the server.
use logflux_go_sdk.Prelude.{
  ◌≡◌, ap, sym, ◌++◌, Option, none, some, Str, codes, Except, ok, err, >>=-eq-ok, ok_injective,
}
use logflux_go_sdk.Tracing.{hex_text}
use logflux_go_sdk.Crypto.Rsa.{
  Library, RsaError, encrypt_failed, generate_failed, marshal_failed, wrapping, or_none,
  parse_rsa_public_key, encrypt_with_rsa, generate_aes_key, generate_public_key_fingerprint,
}
use logflux_go_sdk.Handshake.{
  Rsa, Request, Reply, Decoders, HandshakeResult, body_of, complete_request,
  perform_handshake_with_url,
}
use logflux_go_sdk.Handshake.Result.{handshake-Stages}

-- The functions of pkg/crypto/rsa.go that the handshake calls. `drawn` is what the random source gives
-- for the padding.
unfoldable pub handshake_rsa : Library → Str → Rsa
unfolding parse_rsa_public_key generate_public_key_fingerprint encrypt_with_rsa
handshake_rsa lib drawn = record {
  PublicKey = lib.PublicKey;
  parse = λ pem. or_none (parse_rsa_public_key lib pem);
  fingerprint = λ key. or_none (generate_public_key_fingerprint lib key);
  encrypt = λ key secret. or_none (encrypt_with_rsa lib drawn key secret);
}

-- A server with the private key for a PEM text: it decodes base64, and opens what is encrypted for it.
pub record Server (lib : Library) (pem : Str) : Type 0 where
  pub unbase64 : Str → Option Str
  pub unbase64-base64 : (text : Str) → unbase64 (lib.base64 text) ≡ some text
  pub unseal : Str → Option Str
  pub unseal-encrypt :
      (key : lib.PublicKey) (drawn text sealed : Str)
      → parse_rsa_public_key lib pem ≡ ok key
      → lib.encrypt_oaep drawn key text ≡ ok sealed
      → unseal sealed ≡ some text

abbrev pub bound : Option Str → (Str → Option Str) → Option Str
bound none next = none
bound (some a) next = next a

-- What the server makes of the secret in a request.
abbrev pub received : {lib : Library} {pem : Str} → Server lib pem → Str → Option Str
received server secret = bound (server.unbase64 secret) server.unseal

or_none-some : {A : Type 0} (r : Except RsaError A) (a : A) → or_none r ≡ some a → r ≡ ok a
or_none-some (ok b) a h = cc
or_none-some (err e) a h = cc

wrapping-ok :
    {A : Type 0} (wrap : Str → RsaError) (r : Except Str A) (a : A)
    → wrapping wrap r ≡ ok a
    → r ≡ ok a
wrapping-ok wrap (ok b) a h = ap ok (ok_injective h)
wrapping-ok wrap (err e) a h = cc

module _ (lib : Library) where
  -- What the server gets of a text that `EncryptWithRSA` took.
  received-encrypt :
      (pem drawn text secret : Str) (server : Server lib pem) (key : lib.PublicKey)
      → parse_rsa_public_key lib pem ≡ ok key
      → encrypt_with_rsa lib drawn key text ≡ ok secret
      → received server secret ≡ some text
  unfolding encrypt_with_rsa
  received-encrypt pem drawn text secret server key parsed h =
      let (sealed, made, h1) =
        >>=-eq-ok (wrapping encrypt_failed (lib.encrypt_oaep drawn key text)) _ h in
      rw (sym (ok_injective h1), server.unbase64-base64 sealed)
        (server.unseal-encrypt key drawn text sealed parsed
          (wrapping-ok encrypt_failed _ sealed made))

  -- `SHA256:` and the digest of the key in hexadecimal digits.
  abbrev pub IsDigestText : lib.PublicKey → Str → Type 0
  IsDigestText key text =
      (der : Str) × (lib.marshal_pkix key ≡ ok der)
      × (text ≡ codes "SHA256:" ++ hex_text (lib.sha256 der))

  fingerprint-IsDigestText :
      (key : lib.PublicKey) (text : Str)
      → generate_public_key_fingerprint lib key ≡ ok text
      → IsDigestText key text
  unfolding generate_public_key_fingerprint
  fingerprint-IsDigestText key text h =
      let (der, made, h1) = >>=-eq-ok (wrapping marshal_failed (lib.marshal_pkix key)) _ h in
      (der, wrapping-ok marshal_failed _ der made, sym (ok_injective h1))

  -- What both ends have of a handshake: the key that the client drew and keeps is the one that the server
  -- reads out of the secret in the second request, which it answered with status 200.
  pub record IsShared (http : Request → Reply) (url api_key : Str) (r : HandshakeResult)
      (server : Server lib r.server_public_key_pem) : Type 0 where
    pub drawn : lib.read 32 ≡ ok r.aes_key
    pub secret : Str
    pub answered :
        (body : Str) × (body_of
            (url ++ codes "/complete")
            (http (complete_request url api_key secret))
          ≡ ok body)
    pub shared : received server secret ≡ some r.aes_key
    pub key : lib.PublicKey
    pub parsed : parse_rsa_public_key lib r.server_public_key_pem ≡ ok key
    pub printed : IsDigestText key r.server_key_fingerprint

  pub perform_handshake-IsShared :
      (json : Decoders) (padding : Str) (http : Request → Reply) (url api_key : Str)
      (r : HandshakeResult) (server : Server lib r.server_public_key_pem)
      → perform_handshake_with_url json
          (handshake_rsa lib padding)
          http
          (or_none (generate_aes_key lib))
          url
          api_key
        ≡ ok r
      → IsShared http url api_key r server
  unfolding generate_aes_key handshake_rsa
  perform_handshake-IsShared json padding http url api_key r server h =
      let s =
        handshake-Stages json (handshake_rsa lib padding) http (or_none (generate_aes_key lib)) url
          api_key r h in
      let parsed =
        or_none-some (parse_rsa_public_key lib r.server_public_key_pem) s.public_key s.parsed in
      record {
        drawn =
            wrapping-ok generate_failed _ r.aes_key
              (or_none-some (generate_aes_key lib) r.aes_key s.drawn);
        secret = s.secret;
        answered = (s.body, s.second);
        shared =
            received-encrypt r.server_public_key_pem padding r.aes_key s.secret server s.public_key
              parsed
              (or_none-some (encrypt_with_rsa lib padding s.public_key r.aes_key) s.secret
                s.encrypted);
        key = s.public_key;
        parsed = parsed;
        printed = fingerprint-IsDigestText s.public_key r.server_key_fingerprint (
            or_none-some (generate_public_key_fingerprint lib s.public_key) r.server_key_fingerprint
              s.printed);
      }
