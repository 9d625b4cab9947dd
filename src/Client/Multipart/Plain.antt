-- ===== src/Client/Multipart/Plain.antt =====
-- pkg/client/multipart.go: the parts that are not encrypted.
use logflux_go_sdk.Prelude.{
  ◌≡◌, sym, ap, ◌∙◌, pos, false, Option, none, arith, Str, ok, >>=-eq-ok, ok_injective, ◌≢◌, ◌⊎◌,
  inl, inr, ℤ, ◌≤ℤ◌,
}
use logflux_go_sdk.Models.{
  Time, LogEntry, entry_type_requires_encryption, default_payload_type,
  entry_type_telemetry_managed, payload_type_aes256_gcm_gzip_json,
}
use logflux_go_sdk.Crypto.{Primitives, prepare}
use logflux_go_sdk.Client.Multipart.{MultipartBuilder, Part, part_body, part_of, build_part}
use logflux_go_sdk.Client.Multipart.Parts.{made_plain}

plain_header :
    (p : Primitives) (format : Time → Str) (entry : LogEntry) (z : Str)
    → entry.entry_type ≢ entry_type_telemetry_managed
    → entry.payload_type ≡ pos 0
    → (part_of p format entry (none, none, z)).payload_type ≡ payload_type_aes256_gcm_gzip_json
unfolding part_of default_payload_type
plain_header p format entry z n h = ground arith

plain_key :
    (p : Primitives) (format : Time → Str) (entry : LogEntry) (z : Str) (part : Part)
    → part_of p format entry (none, none, z) ≡ part
    → part.key_id ≡ none
unfolding part_of
plain_key p format entry z part e = ap (λ (x : Part). x.key_id) (sym e)

plain_body :
    (p : Primitives) (format : Time → Str) (entry : LogEntry) (z : Str) (part : Part)
    → part_of p format entry (none, none, z) ≡ part
    → part.body ≡ z
unfolding part_of
plain_body p format entry z part e = ap (λ (x : Part). x.body) (sym e)

outside :
    (t : ℤ)
    → (t ≡ pos 0) ⊎ (pos 8 ≤ℤ t)
    → (entry_type_requires_encryption t ≡ false) × (t ≢ entry_type_telemetry_managed)
unfolding entry_type_requires_encryption
outside t (inl h) = (ground arith, λ e. ground arith)
outside t (inr h) = (ground arith, λ e. ground arith)

-- An entry whose type is 0, or above 7, and that names no payload type goes out unencrypted under the
-- payload type that announces AES-256-GCM: no key, and a body that is the message itself, or the
-- message compressed if the client compresses.
pub untyped_plain :
    (p : Primitives) (format : Time → Str) (b : MultipartBuilder) (entry : LogEntry)
    (drawn : Option Str) (part : Part)
    → (entry.entry_type ≡ pos 0) ⊎ (pos 8 ≤ℤ entry.entry_type)
    → entry.payload_type ≡ pos 0
    → build_part p format b entry drawn ≡ ok part
    → (part.payload_type ≡ payload_type_aes256_gcm_gzip_json)
      × (part.key_id ≡ none)
      × (prepare p entry.message b.enable_compression ≡ ok part.body)
unfolding build_part
untyped_plain p format b entry drawn part untyped t h =
    let (e, n) = outside entry.entry_type untyped in
    let (made, hm, hp) = >>=-eq-ok (part_body p format b entry drawn) _ h in
    let (z, hz, e2) = made_plain p format b entry drawn made e hm in
    let same : part_of p format entry (none, none, z) ≡ part =
      ap (part_of p format entry) e2 ∙ ok_injective hp in
    (
      ap (λ (x : Part). x.payload_type) (sym same) ∙ plain_header p format entry z n t,
      plain_key p format entry z part same,
      hz ∙ ap ok (sym (plain_body p format entry z part same)),
    )
