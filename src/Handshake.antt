-- ===== src/Handshake.antt =====
-- pkg/handshake/handshake.go: the exchange of a key with the ingest service. Go's HTTP client, the
-- decoders of encoding/json, and the RSA and random sources of pkg/crypto/rsa.go are parameters.
pub mod Result
pub mod Exchange
pub mod Samples
mod Tests
use logflux_go_sdk.Prelude.{
  ℕ, ◌+◌, ℤ, pos, eqb_ℤ, Bool, true, false, not, ◌&&◌, ◌||◌, List, [], ◌∷◌, ◌++◌, Option, none,
  some, if◌then◌else◌, ltb, leb, ◌==◌, Str, codes, str_eq, contains, length, take, Except, ok, err,
  ◌>>=◌,
}

pub record HandshakeLimits : Type 0 where
  pub max_batch_size : ℤ
  pub max_payload_size : ℤ
  pub max_request_size : ℤ

pub record HandshakeInitResponse : Type 0 where
  pub public_key : Str
  pub supports_multipart : Bool
  pub limits : Option HandshakeLimits

pub record HandshakeCompleteResponse : Type 0 where
  pub key_id : Str
  pub key_uuid : Str

-- ASCII white space; other spaces do not occur in key ids.
unfoldable pub is_space : ℕ → Bool
is_space c = c == 32 || leb 9 c && leb c 13

unfoldable pub trim_left : Str → Str
unfolding is_space
trim_left [] = []
trim_left (c ∷ cs) = let rest = trim_left cs in if is_space c then rest else c ∷ cs

-- Without the spaces at the end.
unfoldable pub trim_right : Str → Str
unfolding is_space
trim_right [] = []
trim_right (c ∷ cs) =
    let rest = trim_right cs in if is_space c && length rest == 0 then [] else c ∷ rest

-- strings.TrimSpace
unfoldable pub trim_space : Str → Str
unfolding trim_left trim_right
trim_space s = trim_right (trim_left s)

unfoldable pub get_key_id : HandshakeCompleteResponse → Str
unfolding trim_space
get_key_id r =
    let id = trim_space r.key_id in if not (str_eq id []) then id else trim_space r.key_uuid

pub record HandshakeResult : Type 0 where
  pub aes_key : Str
  pub key_uuid : Str
  pub server_public_key_pem : Str
  pub server_key_fingerprint : Str
  pub limits : Option HandshakeLimits
  pub supports_multipart : Bool

pub data HandshakeError : Type 0 where
  ingestor_unavailable : Str → Str → HandshakeError
  no_request : Str → HandshakeError
  bad_status : ℤ → Str → HandshakeError
  read_failed not_pem no_aes_key bad_public_key no_fingerprint not_encrypted : HandshakeError
  no_public_key no_key_id : Str → HandshakeError

-- A POST with the key in its Authorization header; the secret is none in the first request.
pub record Request : Type 0 where
  pub url : Str
  pub api_key : Str
  pub encrypted_secret : Option Str

-- What becomes of a request; a body is read up to the limit, and none is a failure of the read.
pub data Reply : Type 0 where
  unmade unanswered : Str → Reply
  responded : ℤ → Option Str → Reply

-- The decoders: none is an error of `json.Unmarshal`, and the wrapped formats may lack their data.
pub record Decoders : Type 0 where
  pub init : Str → Option HandshakeInitResponse
  pub wrapped_init : Str → Option (Option HandshakeInitResponse)
  pub complete : Str → Option HandshakeCompleteResponse
  pub wrapped_complete : Str → Option (Option HandshakeCompleteResponse)

-- `parse` reads a public key from its PEM text.
pub record Rsa : Type 1 where
  pub PublicKey : Type 0
  pub parse : Str → Option PublicKey
  pub fingerprint : PublicKey → Option Str
  pub encrypt : PublicKey → Str → Option Str

abbrev pub or_fail : {A : Type 0} → Option A → HandshakeError → Except HandshakeError A
or_fail none e = err e
or_fail (some a) e = ok a

abbrev pub given_body : Option Str → Str
given_body none = codes ""
given_body (some body) = body

unfoldable pub body_of : Str → Reply → Except HandshakeError Str
body_of url (unmade text) = err (no_request text)
body_of url (unanswered text) = err (ingestor_unavailable url text)
body_of url (responded status body) =
    if not (eqb_ℤ status (pos 200))
    then err (bad_status status (given_body body))
    else or_fail body read_failed

unfoldable pub validate_pem : Str → Bool
validate_pem key =
    contains key (codes "-----BEGIN PUBLIC KEY-----")
    && contains key (codes "-----END PUBLIC KEY-----")

unfoldable pub snippet : Str → Str
snippet body = if ltb 200 (length body) then take 200 body ++ codes "..." else body

-- A response whose key is not blank, with the check of its key; none goes on to the next format.
unfoldable pub checked_init :
    HandshakeInitResponse
    → Except HandshakeError HandshakeInitResponse
    → Except HandshakeError HandshakeInitResponse
unfolding validate_pem trim_space
checked_init r otherwise =
    if str_eq (trim_space r.public_key) []
    then otherwise
    else if validate_pem r.public_key
    then ok r
    else err not_pem

abbrev pub init_among :
    Option (Option HandshakeInitResponse)
    → Except HandshakeError HandshakeInitResponse
    → Except HandshakeError HandshakeInitResponse
init_among (some (some r)) otherwise = checked_init r otherwise
init_among _ otherwise = otherwise

abbrev pub top_init : Option HandshakeInitResponse → Option (Option HandshakeInitResponse)
top_init none = none
top_init (some r) = some (some r)

unfoldable pub first_key_id :
    HandshakeCompleteResponse → Except HandshakeError Str → Except HandshakeError Str
unfolding get_key_id
first_key_id r otherwise = let id = get_key_id r in if not (str_eq id []) then ok id else otherwise

abbrev pub id_among :
    Option (Option HandshakeCompleteResponse)
    → Except HandshakeError Str
    → Except HandshakeError Str
id_among (some (some r)) otherwise = first_key_id r otherwise
id_among _ otherwise = otherwise

abbrev pub top_complete :
    Option HandshakeCompleteResponse → Option (Option HandshakeCompleteResponse)
top_complete none = none
top_complete (some r) = some (some r)

abbrev pub init_request : Str → Str → Request
init_request url api_key = record {
  url = url ++ codes "/init";
  api_key = api_key;
  encrypted_secret = none;
}

abbrev pub complete_request : Str → Str → Str → Request
complete_request url api_key secret = record {
  url = url ++ codes "/complete";
  api_key = api_key;
  encrypted_secret = some secret;
}

module _ (json : Decoders) where
  unfoldable pub decode_init : Str → Except HandshakeError HandshakeInitResponse
  unfolding checked_init snippet
  decode_init body =
      init_among (top_init (json.init body))
        (init_among (json.wrapped_init body) (err (no_public_key (snippet body))))

  unfoldable pub decode_complete : Str → Except HandshakeError Str
  unfolding first_key_id snippet
  decode_complete body =
      id_among (top_complete (json.complete body))
        (id_among (json.wrapped_complete body) (err (no_key_id (snippet body))))

  -- `aes_key` is what the random source gives, none if it fails. `http` answers the two requests.
  unfoldable pub perform_handshake_with_url :
      (rsa : Rsa)
      → (Request → Reply)
      → Option Str
      → Str
      → Str
      → Except HandshakeError HandshakeResult
  unfolding decode_init decode_complete body_of
  perform_handshake_with_url rsa http aes_key url api_key = do
    init_body ← body_of (url ++ codes "/init") (http (init_request url api_key))
    init ← decode_init init_body
    key ← or_fail aes_key no_aes_key
    public_key ← or_fail (rsa.parse init.public_key) bad_public_key
    fingerprint ← or_fail (rsa.fingerprint public_key) no_fingerprint
    secret ← or_fail (rsa.encrypt public_key key) not_encrypted
    body ← body_of (url ++ codes "/complete") (http (complete_request url api_key secret))
    id ← decode_complete body
    ok (record {
      aes_key = key;
      key_uuid = id;
      server_public_key_pem = init.public_key;
      server_key_fingerprint = fingerprint;
      limits = init.limits;
      supports_multipart = init.supports_multipart;
    })
