-- ===== src/Crypto/Rsa.antt =====
-- pkg/crypto/rsa.go: the server's public key, the key that is drawn for a session, and fingerprints. PEM,
-- X.509, RSA, SHA-256 and base64 are Go's library.
use logflux_go_sdk.Prelude.{ℕ, Option, none, some, Str, codes, ◌++◌, Except, ok, err, ◌>>=◌}
use logflux_go_sdk.Tracing.{hex_text}

-- `decode_pem` gives the bytes of the first block; `as_rsa` is the assertion on the type of a key; an
-- encryption takes what the random source gives. `read` is `rand.Read` for a number of bytes.
pub record Library : Type 1 where
  pub AnyKey : Type 0
  pub PublicKey : Type 0
  pub decode_pem : Str → Option Str
  pub parse_pkix : Str → Except Str AnyKey
  pub as_rsa : AnyKey → Option PublicKey
  pub encrypt_oaep : Str → PublicKey → Str → Except Str Str
  pub marshal_pkix : PublicKey → Except Str Str
  pub sha256 : Str → Str
  pub base64 : Str → Str
  pub read : ℕ → Except Str Str

pub data RsaError : Type 0 where
  no_pem_block not_an_rsa_key : RsaError
  parse_failed encrypt_failed generate_failed marshal_failed : Str → RsaError
  public_key_failed : RsaError → RsaError

-- An error of the library, with what the code makes of it.
abbrev pub wrapping : {A : Type 0} → (Str → RsaError) → Except Str A → Except RsaError A
wrapping wrap (ok a) = ok a
wrapping wrap (err text) = err (wrap text)

abbrev pub or_error : {A : Type 0} → Option A → RsaError → Except RsaError A
or_error (some a) e = ok a
or_error none e = err e

abbrev pub or_none : {A : Type 0} → Except RsaError A → Option A
or_none (ok a) = some a
or_none (err e) = none

module _ (lib : Library) where
  open lib use {
    AnyKey, PublicKey, decode_pem, parse_pkix, as_rsa, encrypt_oaep, marshal_pkix, sha256, base64,
    read,
  }

  unfoldable pub parse_rsa_public_key : Str → Except RsaError PublicKey
  parse_rsa_public_key pem_data = do
    block ← or_error (decode_pem pem_data) no_pem_block
    key ← wrapping parse_failed (parse_pkix block)
    or_error (as_rsa key) not_an_rsa_key

  unfoldable pub encrypt_with_rsa : Str → PublicKey → Str → Except RsaError Str
  encrypt_with_rsa drawn public_key text = do
    encrypted ← wrapping encrypt_failed (encrypt_oaep drawn public_key text)
    ok (base64 encrypted)

  unfoldable pub generate_aes_key : Except RsaError Str
  generate_aes_key = wrapping generate_failed (read 32)

  unfoldable pub generate_public_key_fingerprint : PublicKey → Except RsaError Str
  unfolding hex_text
  generate_public_key_fingerprint public_key = do
    der ← wrapping marshal_failed (marshal_pkix public_key)
    ok (codes "SHA256:" ++ hex_text (sha256 der))

  abbrev pub with_cause : {A : Type 0} → Except RsaError A → Except RsaError A
  with_cause (ok a) = ok a
  with_cause (err e) = err (public_key_failed e)

  unfoldable pub generate_public_key_fingerprint_from_pem : Str → Except RsaError Str
  unfolding parse_rsa_public_key generate_public_key_fingerprint
  generate_public_key_fingerprint_from_pem pem_data = do
    public_key ← with_cause (parse_rsa_public_key pem_data)
    generate_public_key_fingerprint public_key
