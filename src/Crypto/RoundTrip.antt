-- ===== src/Crypto/RoundTrip.antt =====
-- pkg/crypto/crypto.go: decryption after encryption.
use logflux_go_sdk.Prelude.{
  ◌≡◌, sym, ap, ◌∙◌, Bool, true, false, Option, none, some, ==_iff, Str, length, take, ok,
  >>=-eq-ok, ok_injective,
}
use logflux_go_sdk.Crypto.{
  Primitives, IsSound, Encryptor, EncryptionResult, RawEncryptionResult, max_decompress_size,
  nonce_size, compress_failed, new_cipher, prepare, finish, encrypt_raw, encrypt_with_compression,
  decrypt_with_compression, or_fail, gzip_decompress, gzip_compress,
}

-- What comes back of a text: all of it, or as much as the decompression limit lets through.
abbrev pub kept : Str → Bool → Str
kept text true = take max_decompress_size text
kept text false = text

module _ (p : Primitives) (sound : IsSound p) where
  finish-gzip :
      (text z : Str)
      → gzip_compress p text ≡ ok z
      → gzip_decompress p z ≡ ok (take max_decompress_size text)
  unfolding gzip_compress gzip_decompress
  finish-gzip text z h = rw (sound.gunzip-gzip text z (some_of (p.gzip text) z h))
    where
      some_of : (o : Option Str) (z : Str) → or_fail o compress_failed ≡ ok z → o ≡ some z
      some_of none z h = cc
      some_of (some a) z h = cc

  finish-prepare :
      (text : Str) (compress : Bool) (z : Str)
      → prepare p text compress ≡ ok z
      → finish p z compress ≡ ok (kept text compress)
  unfolding prepare finish
  finish-prepare text true z h = finish-gzip text z h
  finish-prepare text false z h = sym h

  encrypt_parts :
      (e : Encryptor) (text : Str) (compress : Bool) (n : Str) (r : EncryptionResult)
      → encrypt_with_compression p e text compress (some n) ≡ ok r
      → (z : Str) × (prepare p text compress ≡ ok z)
        × (new_cipher e.aes_key ≡ ok tt)
        × (r ≡ record { payload = p.base64 (p.seal e.aes_key n z); nonce = p.base64 n })
  unfolding encrypt_with_compression encrypt_raw
  encrypt_parts e text compress n r h =
      let (raw, hr, h2) = >>=-eq-ok (encrypt_raw p e text compress (some n)) _ h in
      let (z, hz, h3) = >>=-eq-ok (prepare p text compress) _ hr in
      let (u, hu, h4) = >>=-eq-ok (new_cipher e.aes_key) _ h3 in
      (
        z,
        hz,
        hu,
        sym (ok_injective h2)
            ∙ ap
                (λ (x : RawEncryptionResult). record {
                  payload = p.base64 x.ciphertext;
                  nonce = p.base64 x.nonce;
                })
                (sym (ok_injective h4)),
      )

  -- What `EncryptWithCompression` made of a text with a nonce of 12 bytes, `DecryptWithCompression` with
  -- the same key and flag turns back into the text: without compression whole, with compression cut
  -- without an error at 10 MiB.
  pub decrypt-encrypt :
      (e : Encryptor) (text : Str) (compress : Bool) (n : Str) (r : EncryptionResult)
      → length n ≡ nonce_size
      → encrypt_with_compression p e text compress (some n) ≡ ok r
      → decrypt_with_compression p e r.payload r.nonce compress ≡ ok (kept text compress)
  unfolding decrypt_with_compression
  decrypt-encrypt e text compress n r l h =
      let (z, hz, hc, hr) = encrypt_parts e text compress n r h in
      rw
        (
          hr,
          sound.unbase64-base64 (p.seal e.aes_key n z),
          sound.unbase64-base64 n,
          hc,
          (==_iff (length n) nonce_size).1 l,
          sound.unseal-seal e.aes_key n z,
        )
        (finish-prepare text compress z hz)
