-- ===== src/Client/Resilient/Keys/Tests.antt =====
-- The theorems about the keys of pkg/client/resilient_client.go at a concrete run, in which the session is
-- renewed while a delivery is under way.
use logflux_go_sdk.Prelude.{
  ◌≡◌, refl, sym, true, false, pos, [], ◌∷◌, none, some, Str, codes, replicate, ok, All,
}
use logflux_go_sdk.Models.{Time, LogEntry, entry_type_requires_encryption}
use logflux_go_sdk.Crypto.{Primitives, IsSound, encrypt_raw, close, new_encryptor}
use logflux_go_sdk.Client.Multipart.{Part, part_of, build_part}
use logflux_go_sdk.Client.Multipart.Parts.{receive}
use logflux_go_sdk.Client.Resilient.Keys.{
  Session, Built, KeyState, KeyReach, moved, builds, cell_of, builder_at, new_keys,
}
use logflux_go_sdk.Client.Resilient.Keys.Sealed.{zeros, IsSealed, KeyReach-IsSealed}
use logflux_go_sdk.Client.Resilient.Keys.Stale.{
  first_delivery, closed_encryptor, renewed, renewed-KeyReach, stale_delivery,
}

abbrev plain : Primitives
plain = record {
  seal = λ key nonce text. text;
  unseal = λ key nonce text. some text;
  gzip = λ text. some text;
  gunzip = λ text. some text;
  base64 = λ text. text;
  unbase64 = λ text. some text;
}

plain-IsSound : IsSound plain
plain-IsSound = record {
  unseal-seal = λ key nonce text. refl;
  gunzip-gzip = λ text z h. sym h;
  unbase64-base64 = λ text. refl;
}

abbrev no_time : Time → Str
no_time t = []

abbrev first : Session
first = record { key = replicate 32 7; key_uuid = codes "k1" }

abbrev second : Session
second = record { key = replicate 32 9; key_uuid = codes "k2" }

abbrev entry : LogEntry
entry = record {
  message = codes "hello";
  timestamp = 0;
  level = pos 7;
  entry_type = pos 1;
  payload_type = pos 0;
  node = [];
  labels = none;
  search_tokens = [];
}

abbrev nonce : Str
nonce = replicate 12 5

abbrev part : Part
part = part_of plain no_time entry (some (codes "k1"), some nonce, codes "hello")

part_built :
    build_part plain no_time
      (builder_at false (first_delivery first) (closed_encryptor first))
      entry
      (some nonce)
    ≡ ok part
unfolding build_part entry_type_requires_encryption encrypt_raw close new_encryptor part_of
part_built = refl

needs_encryption : entry_type_requires_encryption entry.entry_type ≡ true
unfolding entry_type_requires_encryption
needs_encryption = refl

stale_delivery_example :
    (s : KeyState) × KeyReach plain no_time false (new_keys first) s
    × (s.key_uuid ≡ codes "k2")
    × ((b : Built) × (s.parts ≡ b ∷ []) × (b.part ≡ part) × (b.entry ≡ entry))
    × (part.key_id ≡ some (codes "k1"))
    × (receive plain (zeros (replicate 32 7)) false part ≡ some (codes "hello"))
stale_delivery_example =
    stale_delivery plain no_time false plain-IsSound first second entry (some nonce) part
      needs_encryption part_built

-- The part was built after the renewal.
abbrev sent : KeyState
sent = record (renewed first second) {
  parts =
      record {
        part = part;
        entry = entry;
        cell = record (cell_of first) { encryptor = closed_encryptor first; ended = true };
      }
      ∷ [];
}

sent-KeyReach : KeyReach plain no_time false (new_keys first) sent
sent-KeyReach =
    moved (renewed-KeyReach plain no_time false first second)
      (builds 0 (first_delivery first) _ entry (some nonce) part refl refl part_built)

KeyReach-IsSealed_example : All (IsSealed plain false) sent.parts
KeyReach-IsSealed_example = KeyReach-IsSealed plain no_time plain-IsSound false first sent-KeyReach
