-- ===== src/Discovery.antt =====
-- pkg/discovery/discovery.go and pkg/api/endpoints.go: how the client finds the ingest service. Go's
-- HTTP client is a function that answers requests; the decoders of encoding/json are a parameter.
pub mod Attempts
pub mod Order
mod Tests
use logflux_go_sdk.Prelude.{
  ℕ, suc, ◌+◌, ◌*◌, ℤ, pos, eqb_ℤ, leb_ℤ, ltb_ℤ, Bool, true, false, not, ◌&&◌, ◌||◌, List, [], ◌∷◌,
  ◌++◌, Option, none, some, if◌then◌else◌, ◌==◌, Str, codes, str_eq, has_prefix, length, take, drop,
  Except, ok, err,
}
use logflux_go_sdk.Models.{Labels}

abbrev pub region_codes : List Str
region_codes = codes "eu" ∷ codes "us" ∷ codes "ca" ∷ codes "au" ∷ codes "ap" ∷ []

-- The loop over the prefixes, each a region and a dash.
unfoldable pub region_among : List Str → Str → Str × Str
region_among [] key = ([], key)
region_among (region ∷ regions) key =
    let rest = region_among regions key in
    if has_prefix key (region ++ codes "-") then (region, drop (length region + 1) key) else rest

unfoldable pub extract_region_from_key : Str → Str × Str
unfolding region_among
extract_region_from_key key = region_among region_codes key

unfoldable pub static_discovery_url : Str → Str
static_discovery_url region = codes "https://discover." ++ region ++ codes ".logflux.io"

pub record RateLimitInfo : Type 0 where
  pub requests_per_minute : ℤ
  pub burst_limit : ℤ
  pub window_size : ℤ

pub record EndpointInfo : Type 0 where
  pub base_url : Str
  pub region : Str
  pub capabilities : List Str
  pub rate_limit : Option RateLimitInfo
  pub metadata : Labels

unfoldable pub get_ingest_url : EndpointInfo → Str
get_ingest_url e = e.base_url ++ codes "/v1/ingest"

unfoldable pub get_batch_url : EndpointInfo → Str
get_batch_url e = e.base_url ++ codes "/v1/batch"

unfoldable pub get_version_url : EndpointInfo → Str
get_version_url e = e.base_url ++ codes "/info"

unfoldable pub get_health_url : EndpointInfo → Str
get_health_url e = e.base_url ++ codes "/health"

unfoldable pub get_handshake_url : EndpointInfo → Str
get_handshake_url e = e.base_url ++ codes "/v1/handshake"

-- The client without Go's HTTP client and its timeout.
pub record DiscoveryClient : Type 0 where
  pub api_key : Str
  pub base_url : Str

unfoldable pub new_discovery_client : Str → DiscoveryClient
new_discovery_client api_key = record {
  api_key = api_key;
  base_url = codes "https://api.logflux.io";
}

unfoldable pub set_custom_endpoint : Str → EndpointInfo
set_custom_endpoint base_url = record {
  base_url = base_url;
  region = [];
  capabilities = [];
  rate_limit = none;
  metadata = none;
}

-- A GET request; the authorization is none on a request without credentials.
pub record Request : Type 0 where
  pub url : Str
  pub authorization : Option Str

-- What becomes of a request: none is made of the URL, none is answered, or a response whose body is read
-- up to the limit, with none for a failure of the read.
pub data Reply : Type 0 where
  no_request no_response : Str → Reply
  responded : ℤ → Option Str → Reply

pub data DiscoveryError : Type 0 where
  request_error transport_error : Str → DiscoveryError
  bad_status : ℤ → DiscoveryError
  read_error : DiscoveryError
  missing_ingestor : DiscoveryError
  unparsable : Str → DiscoveryError
  all_failed : DiscoveryError → DiscoveryError

pub record StaticResponse : Type 0 where
  pub region : Str
  pub backend_url : Str
  pub ingestor_url : Str
  pub dashboard_url : Str

pub record SpecResponse : Type 0 where
  pub data_residency : Str
  pub backend_url : Str
  pub ingestor_url : Str
  pub environment : Str
  pub features : List Str

pub record WrappedData : Type 0 where
  pub base_url : Str
  pub region : Str
  pub capabilities : List Str

-- `json.Unmarshal` into the three structs; none is an error. The wrapped format may lack its data.
pub record Decoders : Type 0 where
  pub static : Str → Option StaticResponse
  pub spec : Str → Option SpecResponse
  pub wrapped : Str → Option (Option WrappedData)

-- The body of a response with status 200, or the error.
unfoldable pub body_of : Reply → Except DiscoveryError Str
body_of (no_request text) = err (request_error text)
body_of (no_response text) = err (transport_error text)
body_of (responded status none) =
    if not (eqb_ℤ status (pos 200)) then err (bad_status status) else err read_error
body_of (responded status (some body)) =
    if not (eqb_ℤ status (pos 200)) then err (bad_status status) else ok body
