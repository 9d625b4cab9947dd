-- ===== src/Crypto/Tests.antt =====
-- Tests of pkg/crypto/crypto.go, and its theorem at a concrete input.
use logflux_go_sdk.Prelude.{
  ◌≡◌, refl, ap, true, false, [], ◌∷◌, some, Str, codes, replicate, ok, err,
}
use logflux_go_sdk.Crypto.{
  Primitives, IsSound, Encryptor, EncryptionResult, bad_key, encrypt_with_compression,
  decrypt_with_compression, new_encryptor, close,
}
use logflux_go_sdk.Crypto.RoundTrip.{kept, decrypt-encrypt}

-- A cipher that hides nothing and a compression that changes nothing.
abbrev clear_text : Primitives
clear_text = record {
  seal = λ key nonce text. text;
  unseal = λ key nonce text. some text;
  gzip = λ text. some text;
  gunzip = λ text. some text;
  base64 = λ text. text;
  unbase64 = λ text. some text;
}

clear_text-IsSound : IsSound clear_text
clear_text-IsSound = record {
  unseal-seal = λ key nonce text. refl;
  gunzip-gzip = λ text z h. ap some (some_injective text z h);
  unbase64-base64 = λ text. refl;
}
  where
    some_injective : (text z : Str) → some text ≡ some z → z ≡ text
    some_injective text z h = cc

abbrev key : Encryptor
key = record { aes_key = replicate 32 7 }

abbrev nonce : Str
nonce = replicate 12 1

abbrev sealed : EncryptionResult
sealed = record { payload = codes "hello"; nonce = nonce }

short_key :
    encrypt_with_compression clear_text (record { aes_key = 1 ∷ [] }) (codes "a") false (some nonce)
    ≡ err bad_key
unfolding encrypt_with_compression
short_key = refl

closed_key : (close (new_encryptor (1 ∷ 2 ∷ []))).aes_key ≡ 0 ∷ 0 ∷ []
unfolding close new_encryptor
closed_key = refl

sealed_lem : encrypt_with_compression clear_text key (codes "hello") true (some nonce) ≡ ok sealed
unfolding encrypt_with_compression
sealed_lem = refl

decrypt-encrypt_example :
    decrypt_with_compression clear_text key (codes "hello") nonce true
    ≡ ok (kept (codes "hello") true)
decrypt-encrypt_example =
    decrypt-encrypt clear_text clear_text-IsSound key (codes "hello") true nonce sealed refl
      sealed_lem
