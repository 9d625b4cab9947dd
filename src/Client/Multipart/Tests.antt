-- ===== src/Client/Multipart/Tests.antt =====
-- The theorems about pkg/client/multipart.go at concrete inputs.
use logflux_go_sdk.Prelude.{
  inl, ℕ, ◌≡◌, refl, subst, Bool, true, false, pos, List, [], ◌∷◌, Option, none, some, Str, codes,
  join, replicate, ok, ℤ,
}
use logflux_go_sdk.Models.{
  Time, LogEntry, entry_type_requires_encryption, default_payload_type,
  payload_type_aes256_gcm_gzip_json,
}
use logflux_go_sdk.Crypto.{Primitives, IsSound, prepare, encrypt_raw, gzip_compress}
use logflux_go_sdk.Client.Multipart.{MultipartBuilder, Part, build_part, build}
use logflux_go_sdk.Client.Multipart.Parts.{CarriesAll, build-CarriesAll}
use logflux_go_sdk.Client.Multipart.Plain.{untyped_plain}

abbrev rest : Str → Option Str
rest [] = none
rest (x ∷ xs) = some xs

-- A cipher and a compression that put a mark in front of the text.
abbrev marking : Primitives
marking = record {
  seal = λ key nonce text. 1 ∷ text;
  unseal = λ key nonce text. rest text;
  gzip = λ text. some (2 ∷ text);
  gunzip = λ text. rest text;
  base64 = λ text. text;
  unbase64 = λ text. some text;
}

marking-IsSound : IsSound marking
marking-IsSound = record {
  unseal-seal = λ key nonce text. refl;
  gunzip-gzip = λ text z h. subst (λ o. rest_of o ≡ some text) h refl;
  unbase64-base64 = λ text. refl;
}
  where
    rest_of : Option Str → Option Str
    rest_of none = none
    rest_of (some z) = rest z

abbrev typed : ℤ → LogEntry
typed t = record {
  message = codes "hello";
  timestamp = 0;
  level = pos 7;
  entry_type = t;
  payload_type = pos 0;
  node = [];
  labels = none;
  search_tokens = codes "a" ∷ codes "b" ∷ [];
}

abbrev builder : Bool → MultipartBuilder
builder compress = record {
  encryptor = record { aes_key = replicate 32 7 };
  key_uuid = codes "key";
  enable_compression = compress;
}

abbrev format : Time → Str
format t = []

abbrev nonces : ℕ → Option Str
nonces i = some (replicate 12 i)

-- A log, which is sealed, and managed telemetry, which is not.
abbrev two_parts : List Part
two_parts =
    record {
      entry_type = pos 1;
      payload_type = pos 1;
      timestamp = none;
      search_tokens = some (codes "a,b");
      key_id = some (codes "key");
      nonce = some (replicate 12 0);
      body = 1 ∷ 2 ∷ codes "hello";
    }
    ∷ record {
      entry_type = pos 7;
      payload_type = pos 3;
      timestamp = none;
      search_tokens = some (codes "a,b");
      key_id = none;
      nonce = none;
      body = 2 ∷ codes "hello";
    }
    ∷ []

two_parts_lem :
    build marking format (builder true) nonces 0 (typed (pos 1) ∷ typed (pos 7) ∷ []) ≡ ok two_parts
unfolding build entry_type_requires_encryption default_payload_type encrypt_raw gzip_compress join
two_parts_lem = refl

build-CarriesAll_example :
    CarriesAll marking (builder true) (typed (pos 1) ∷ typed (pos 7) ∷ []) two_parts
build-CarriesAll_example =
    build-CarriesAll marking marking-IsSound format (builder true) nonces 0
      (typed (pos 1) ∷ typed (pos 7) ∷ []) two_parts two_parts_lem

abbrev untyped_part : Part
untyped_part = record {
  entry_type = pos 0;
  payload_type = pos 1;
  timestamp = none;
  search_tokens = some (codes "a,b");
  key_id = none;
  nonce = none;
  body = codes "hello";
}

untyped_part_lem : build_part marking format (builder false) (typed (pos 0)) none ≡ ok untyped_part
unfolding build_part entry_type_requires_encryption default_payload_type join
untyped_part_lem = refl

untyped_plain_example :
    (untyped_part.payload_type ≡ payload_type_aes256_gcm_gzip_json)
    × (untyped_part.key_id ≡ none)
    × (prepare marking (codes "hello") false ≡ ok untyped_part.body)
untyped_plain_example =
    untyped_plain marking format (builder false) (typed (pos 0)) none untyped_part (inl refl) refl
      untyped_part_lem
