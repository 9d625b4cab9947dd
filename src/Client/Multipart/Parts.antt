-- ===== src/Client/Multipart/Parts.antt =====
-- pkg/client/multipart.go: what a receiver can read out of the parts.
use logflux_go_sdk.Prelude.{
  is_none, ◌↔◌, ℕ, ◌+◌, ◌≡◌, refl, subst, sym, ap, ◌∙◌, Bool, true, false, List, [], ◌∷◌, Option,
  none, some, if◌then◌else◌, Str, ok, ◌>>=◌, >>=-eq-ok, ok_injective, Bool-cases, inl, inr,
}
use logflux_go_sdk.Models.{Time, LogEntry, entry_type_requires_encryption}
use logflux_go_sdk.Crypto.{
  Primitives, IsSound, Encryptor, RawEncryptionResult, encrypt_raw, gzip_compress, prepare,
  new_cipher, or_fail, compress_failed, no_nonce,
}
use logflux_go_sdk.Client.Multipart.{MultipartBuilder, Part, part_body, part_of, build_part, build}

-- A receiver with the key: it opens a sealed part and unpacks a compressed one.
module _ (p : Primitives) (key : Str) (compressed : Bool) where
  pub unpack : Str → Option Str
  unpack text = if compressed then p.gunzip text else some text

  unseal_with : Option Str → Str → Option Str
  unseal_with none body = none
  unseal_with (some nonce) body = p.unseal key nonce body

  unpack_some : Option Str → Option Str
  unfolding unpack
  unpack_some none = none
  unpack_some (some text) = unpack text

  read_nonce : Option Str → Option Str
  read_nonce none = none
  read_nonce (some text) = p.unbase64 text

  pub receive : Part → Option Str
  unfolding unseal_with unpack_some read_nonce unpack
  receive part =
      if is_none part.key_id
      then unpack part.body
      else unpack_some (unseal_with (read_nonce part.nonce) part.body)

-- Part by part: the entry's type, its message for the receiver, and a key exactly if the type asks for
-- encryption.
pub record Carries (p : Primitives) (b : MultipartBuilder) (entry : LogEntry) (part : Part)
    : Type 0 where
  pub same_type : part.entry_type ≡ entry.entry_type
  pub message : receive p b.encryptor.aes_key b.enable_compression part ≡ some entry.message
  pub sealed :
      (is_none part.key_id ≡ false) ↔ (entry_type_requires_encryption entry.entry_type ≡ true)

abbrev pub CarriesAll : Primitives → MultipartBuilder → List LogEntry → List Part → Type 0
CarriesAll p b [] [] = Unit {0}
CarriesAll p b [] (part ∷ parts) = ⊥
CarriesAll p b (entry ∷ entries) [] = ⊥
CarriesAll p b (entry ∷ entries) (part ∷ parts) =
    Carries p b entry part × CarriesAll p b entries parts

module _ (p : Primitives) (format : Time → Str) where
  pub made_sealed :
      (b : MultipartBuilder) (entry : LogEntry) (drawn : Option Str)
      (made : Option Str × Option Str × Str)
      → entry_type_requires_encryption entry.entry_type ≡ true
      → part_body p format b entry drawn ≡ ok made
      → (raw : RawEncryptionResult) × (encrypt_raw p b.encryptor entry.message b.enable_compression
            drawn
          ≡ ok raw)
        × ((some b.key_uuid, some (p.base64 raw.nonce), raw.ciphertext) ≡ made)
  unfolding part_body
  made_sealed b entry drawn made e h =
      let (raw, hr, h2) =
        >>=-eq-ok (encrypt_raw p b.encryptor entry.message b.enable_compression drawn) _
          (rw e at h) in
      (raw, hr, ok_injective h2)

  pub made_plain :
      (b : MultipartBuilder) (entry : LogEntry) (drawn : Option Str)
      (made : Option Str × Option Str × Str)
      → entry_type_requires_encryption entry.entry_type ≡ false
      → part_body p format b entry drawn ≡ ok made
      → (z : Str) × (prepare p entry.message b.enable_compression ≡ ok z) × ((none, none, z) ≡ made)
  unfolding part_body prepare
  made_plain b entry drawn made e h = plain_case b.enable_compression (rw e at h)
    where
      plain_case :
          (c : Bool)
          → (if c
              then (gzip_compress p entry.message >>= λ z. ok (none, none, z))
              else ok (none, none, entry.message))
            ≡ ok made
          → (z : Str) × (prepare p entry.message c ≡ ok z) × ((none, none, z) ≡ made)
      plain_case true k =
          let (z, hz, hk) = >>=-eq-ok (gzip_compress p entry.message) _ k in
          (z, hz, ok_injective hk)
      plain_case false k = (entry.message, refl, ok_injective k)

module _ (p : Primitives) (sound : IsSound p) (format : Time → Str) where
  unpack_compressed :
      (key text z : Str) (compress : Bool)
      → prepare p text compress ≡ ok z
      → unpack p key compress z ≡ some text
  unfolding prepare unpack gzip_compress
  unpack_compressed key text z true h = sound.gunzip-gzip text z (some_of (p.gzip text) z h)
    where
      some_of : (o : Option Str) (z : Str) → or_fail o compress_failed ≡ ok z → o ≡ some z
      some_of none z h = cc
      some_of (some a) z h = cc
  unpack_compressed key text z false h = ap some (sym (ok_injective h))

  encrypt_raw_parts :
      (e : Encryptor) (text : Str) (compress : Bool) (nonce : Option Str)
      (raw : RawEncryptionResult)
      → encrypt_raw p e text compress nonce ≡ ok raw
      → (z : Str) × (prepare p text compress ≡ ok z)
        × (raw.ciphertext ≡ p.seal e.aes_key raw.nonce z)
  unfolding encrypt_raw
  encrypt_raw_parts e text compress nonce raw h =
      let (z, hz, h2) = >>=-eq-ok (prepare p text compress) _ h in
      let (u, hu, h3) = >>=-eq-ok (new_cipher e.aes_key) _ h2 in
      let (n, hn, h4) = >>=-eq-ok (or_fail nonce no_nonce) _ h3 in
      let e4 = ok_injective h4 in
      (
        z,
        hz,
        sym (ap (λ (x : RawEncryptionResult). x.ciphertext) e4)
            ∙ ap (λ k. p.seal e.aes_key k z) (ap (λ (x : RawEncryptionResult). x.nonce) e4),
      )

  receive_sealed :
      (key : Str) (c : Bool) (entry : LogEntry) (uuid z n ct : Str)
      → ct ≡ p.seal key n z
      → unpack p key c z ≡ some entry.message
      → receive p key c (part_of p format entry (some uuid, some (p.base64 n), ct))
        ≡ some entry.message
  unfolding receive part_of
  receive_sealed key c entry uuid z n ct e u =
      rw (sound.unbase64-base64 n, e, sound.unseal-seal key n z) u

  receive_plain :
      (key : Str) (c : Bool) (entry : LogEntry) (z : Str)
      → unpack p key c z ≡ some entry.message
      → receive p key c (part_of p format entry (none, none, z)) ≡ some entry.message
  unfolding receive part_of
  receive_plain key c entry z u = u

  part_Carries :
      (b : MultipartBuilder) (entry : LogEntry) (drawn : Option Str)
      (made : Option Str × Option Str × Str)
      → part_body p format b entry drawn ≡ ok made
      → Carries p b entry (part_of p format entry made)
  unfolding part_of
  part_Carries b entry drawn made h =
      elim (Bool-cases (entry_type_requires_encryption entry.entry_type)) [
        | inl e ↦
            let (raw, hr, e2) = made_sealed p format b entry drawn made e h in
            let (z, hz, hc) =
              encrypt_raw_parts b.encryptor entry.message b.enable_compression drawn raw hr in
            subst (λ m. Carries p b entry (part_of p format entry m)) e2
              (record {
                same_type = refl;
                message =
                    receive_sealed b.encryptor.aes_key b.enable_compression entry b.key_uuid z
                      raw.nonce raw.ciphertext hc
                      (unpack_compressed b.encryptor.aes_key entry.message z b.enable_compression
                        hz);
                sealed = (λ _. e, λ _. refl);
              })
        | inr e ↦
            let (z, hz, e2) = made_plain p format b entry drawn made e h in
            subst (λ m. Carries p b entry (part_of p format entry m)) e2
              (record {
                same_type = refl;
                message =
                    receive_plain b.encryptor.aes_key b.enable_compression entry z (
                      unpack_compressed b.encryptor.aes_key entry.message z b.enable_compression
                        hz);
                sealed = (λ k. cc, λ k. cc);
              })
      ]

  pub build_part-Carries :
      (b : MultipartBuilder) (entry : LogEntry) (drawn : Option Str) (part : Part)
      → build_part p format b entry drawn ≡ ok part
      → Carries p b entry part
  unfolding build_part
  build_part-Carries b entry drawn part h =
      let (made, hm, hp) = >>=-eq-ok (part_body p format b entry drawn) _ h in
      subst (Carries p b entry) (ok_injective hp) (part_Carries b entry drawn made hm)

  -- A body that `build` returns has one part for each entry, in order. Each part has its entry's type,
  -- gives a receiver with the session's key the entry's message back, and is sealed exactly if its type
  -- is one of those that require encryption.
  pub build-CarriesAll :
      (b : MultipartBuilder) (draws : ℕ → Option Str) (i : ℕ) (entries : List LogEntry)
      (parts : List Part)
      → build p format b draws i entries ≡ ok parts
      → CarriesAll p b entries parts
  unfolding build
  build-CarriesAll b draws i [] [] h = tt
  build-CarriesAll b draws i [] (x ∷ xs) h = cc
  build-CarriesAll b draws i (entry ∷ entries) parts h =
      let (part, hp, h2) = >>=-eq-ok (build_part p format b entry (draws i)) _ h in
      let (rest, hr, h3) = >>=-eq-ok (build p format b draws (i + 1) entries) _ h2 in
      subst (CarriesAll p b (entry ∷ entries)) (ok_injective h3) (
        build_part-Carries b entry (draws i) part hp,
        build-CarriesAll b draws (i + 1) entries rest hr,
      )
