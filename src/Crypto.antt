-- ===== src/Crypto.antt =====
-- pkg/crypto/crypto.go: AES-256-GCM over optionally compressed text. The cipher, gzip and base64 are
-- Go's library; they enter as `Primitives`, with what the code relies on in `IsSound`.
pub mod RoundTrip
pub mod Rsa
mod Tests
use logflux_go_sdk.Prelude.{
  ℕ, suc, ◌*◌, ◌≡◌, Bool, true, false, ◌||◌, not, List, [], ◌∷◌, Option, none, some, if◌then◌else◌,
  ◌==◌, Str, length, take, map, Except, ok, err, ◌>>=◌,
}

-- `seal` and `unseal` are `gcm.Seal` and `gcm.Open` for a key and a nonce; `gunzip` is all that a
-- compressed text holds. `none` is an error.
pub record Primitives : Type 0 where
  pub seal : Str → Str → Str → Str
  pub unseal : Str → Str → Str → Option Str
  pub gzip : Str → Option Str
  pub gunzip : Str → Option Str
  pub base64 : Str → Str
  pub unbase64 : Str → Option Str

pub record IsSound (p : Primitives) : Type 0 where
  pub unseal-seal : (key nonce text : Str) → p.unseal key nonce (p.seal key nonce text) ≡ some text
  pub gunzip-gzip : (text z : Str) → p.gzip text ≡ some z → p.gunzip z ≡ some text
  pub unbase64-base64 : (text : Str) → p.unbase64 (p.base64 text) ≡ some text

-- Shut, so that no check counts up to it.
unfoldable pub max_decompress_size : ℕ
max_decompress_size = 10 * 1_048_576

abbrev pub nonce_size : ℕ
nonce_size = 12

pub data CryptoError : Type 0 where
  compress_failed bad_key no_nonce bad_payload bad_nonce nonce_length not_authentic : CryptoError
  decompress_failed : CryptoError

pub record Encryptor : Type 0 where
  pub aes_key : Str

unfoldable pub new_encryptor : Str → Encryptor
new_encryptor key = record { aes_key = key }

-- The key's bytes are set to zero.
unfoldable pub close : Encryptor → Encryptor
close e = record { aes_key = map (λ b. 0) e.aes_key }

pub record EncryptionResult : Type 0 where
  pub payload : Str
  pub nonce : Str

pub record RawEncryptionResult : Type 0 where
  pub ciphertext : Str
  pub nonce : Str

abbrev pub or_fail : {A : Type 0} → Option A → CryptoError → Except CryptoError A
or_fail none e = err e
or_fail (some a) e = ok a

abbrev pub guard : Bool → CryptoError → Except CryptoError (Unit {0})
guard true e = ok tt
guard false e = err e

-- aes.NewCipher takes keys of 16, 24 or 32 bytes.
unfoldable pub new_cipher : Str → Except CryptoError (Unit {0})
new_cipher key = guard (length key == 16 || length key == 24 || length key == 32) bad_key

module _ (p : Primitives) where
  unfoldable pub gzip_compress : Str → Except CryptoError Str
  gzip_compress text = or_fail (p.gzip text) compress_failed

  -- The reader stops at the limit, and the rest is not an error.
  unfoldable pub gzip_decompress : Str → Except CryptoError Str
  gzip_decompress z = do
    text ← or_fail (p.gunzip z) decompress_failed
    ok (take max_decompress_size text)

  unfoldable pub prepare : Str → Bool → Except CryptoError Str
  unfolding gzip_compress
  prepare plaintext true = gzip_compress plaintext
  prepare plaintext false = ok plaintext

  -- `nonce` is what the random source gives, `none` if it fails.
  unfoldable pub encrypt_raw :
      Encryptor → Str → Bool → Option Str → Except CryptoError RawEncryptionResult
  unfolding prepare new_cipher
  encrypt_raw e plaintext compress nonce = do
    text ← prepare plaintext compress
    _ ← new_cipher e.aes_key
    n ← or_fail nonce no_nonce
    ok (record { ciphertext = p.seal e.aes_key n text; nonce = n })

  unfoldable pub encrypt_with_compression :
      Encryptor → Str → Bool → Option Str → Except CryptoError EncryptionResult
  unfolding encrypt_raw
  encrypt_with_compression e plaintext compress nonce = do
    raw ← encrypt_raw e plaintext compress nonce
    ok (record { payload = p.base64 raw.ciphertext; nonce = p.base64 raw.nonce })

  unfoldable pub encrypt : Encryptor → Str → Option Str → Except CryptoError EncryptionResult
  unfolding encrypt_with_compression
  encrypt e plaintext nonce = encrypt_with_compression e plaintext false nonce

  unfoldable pub finish : Str → Bool → Except CryptoError Str
  unfolding gzip_decompress
  finish plaintext true = gzip_decompress plaintext
  finish plaintext false = ok plaintext

  unfoldable pub decrypt_with_compression : Encryptor → Str → Str → Bool → Except CryptoError Str
  unfolding finish new_cipher
  decrypt_with_compression e encrypted_payload nonce_base64 compressed = do
    payload ← or_fail (p.unbase64 encrypted_payload) bad_payload
    nonce ← or_fail (p.unbase64 nonce_base64) bad_nonce
    _ ← new_cipher e.aes_key
    _ ← guard (length nonce == nonce_size) nonce_length
    plaintext ← or_fail (p.unseal e.aes_key nonce payload) not_authentic
    finish plaintext compressed

  unfoldable pub decrypt : Encryptor → Str → Str → Except CryptoError Str
  unfolding decrypt_with_compression
  decrypt e encrypted_payload nonce_base64 =
      decrypt_with_compression e encrypted_payload nonce_base64 false
