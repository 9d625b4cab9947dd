-- ===== src/Client/Multipart.antt =====
-- pkg/client/multipart.go: the parts of a request body. The MIME framing is Go's library; a body is the
-- list of its parts, and writing to a memory buffer does not fail.
pub mod Parts
pub mod Plain
mod Tests
use logflux_go_sdk.Prelude.{
  ℕ, suc, ◌+◌, ℤ, pos, eqb_ℤ, Bool, true, false, List, [], ◌∷◌, Option, none, some, if◌then◌else◌,
  ◌==◌, Str, codes, join, length, Except, ok, err, ◌>>=◌,
}
use logflux_go_sdk.Models.{Time, LogEntry, default_payload_type, entry_type_requires_encryption}
use logflux_go_sdk.Crypto.{Primitives, Encryptor, CryptoError, encrypt_raw, gzip_compress}

pub record MultipartBuilder : Type 0 where
  pub encryptor : Encryptor
  pub key_uuid : Str
  pub enable_compression : Bool

-- The headers that vary from part to part, and the body. Content-Type is the same for all.
pub record Part : Type 0 where
  pub entry_type : ℤ
  pub payload_type : ℤ
  pub timestamp : Option Str
  pub search_tokens : Option Str
  pub key_id : Option Str
  pub nonce : Option Str
  pub body : Str

-- `format` is the RFC 3339 text of a time in UTC.
module _ (p : Primitives) (format : Time → Str) where
  -- The body of a part with its key and nonce headers. `nonce` is what the random source gives.
  unfoldable pub part_body :
      MultipartBuilder → LogEntry → Option Str → Except CryptoError (Option Str × Option Str × Str)
  part_body b entry nonce =
      if entry_type_requires_encryption entry.entry_type
      then (do
        raw ← encrypt_raw p b.encryptor entry.message b.enable_compression nonce
        ok (some b.key_uuid, some (p.base64 raw.nonce), raw.ciphertext))
      else if b.enable_compression
      then (do compressed ← gzip_compress p entry.message; ok (none, none, compressed))
      else ok (none, none, entry.message)

  unfoldable pub part_of : LogEntry → Option Str × Option Str × Str → Part
  part_of entry (key_id, nonce, body) = record {
    entry_type = entry.entry_type;
    payload_type =
        if eqb_ℤ entry.payload_type (pos 0)
        then default_payload_type entry.entry_type
        else entry.payload_type;
    timestamp = if entry.timestamp == 0 then none else some (format entry.timestamp);
    search_tokens =
        if length entry.search_tokens == 0
        then none
        else some (join (codes ",") entry.search_tokens);
    key_id = key_id;
    nonce = nonce;
    body = body;
  }

  unfoldable pub build_part : MultipartBuilder → LogEntry → Option Str → Except CryptoError Part
  unfolding part_body part_of
  build_part b entry nonce = do made ← part_body b entry nonce; ok (part_of entry made)

  -- The loop over the entries from the `i`-th draw of the random source on.
  unfoldable pub build :
      MultipartBuilder → (ℕ → Option Str) → ℕ → List LogEntry → Except CryptoError (List Part)
  unfolding build_part
  build b draws i [] = ok []
  build b draws i (entry ∷ entries) = do
    part ← build_part b entry (draws i)
    parts ← build b draws (i + 1) entries
    ok (part ∷ parts)
