-- ===== src/Discovery/Attempts.antt =====
-- pkg/discovery/discovery.go: the attempts that discovery makes, and the test of an endpoint.
use logflux_go_sdk.Prelude.{
  ℕ, ◌+◌, pos, leb_ℤ, ltb_ℤ, Bool, false, not, ◌&&◌, ◌||◌, List, [], ◌∷◌, ◌++◌, Option, none, some,
  if◌then◌else◌, Str, codes, str_eq, Except, ok, err,
}
use logflux_go_sdk.Discovery.{
  extract_region_from_key, static_discovery_url, EndpointInfo, get_health_url, DiscoveryClient,
  Request, Reply, DiscoveryError, StaticResponse, SpecResponse, WrappedData, Decoders, body_of,
  responded, missing_ingestor, unparsable, all_failed,
}

abbrev pub gateways : List Str
gateways =
    codes "https://api.logflux.io/api/discovery"
    ∷ codes "https://eu.api.logflux.io/api/discovery"
    ∷ codes "https://us.api.logflux.io/api/discovery"
    ∷ []

-- The result of an attempt, or what follows if it failed.
abbrev pub tried :
    Str
    → Except DiscoveryError EndpointInfo
    → List Str × Except DiscoveryError EndpointInfo
    → List Str × Except DiscoveryError EndpointInfo
tried url (ok info) rest = (url ∷ [], ok info)
tried url (err e) (urls, r) = (url ∷ urls, r)

abbrev pub last_result : Except DiscoveryError EndpointInfo → Except DiscoveryError EndpointInfo
last_result (ok info) = ok info
last_result (err e) = err (all_failed e)

-- Any status from 200 to 499.
unfoldable pub answers : Reply → Bool
answers (responded status body) = leb_ℤ (pos 200) status && ltb_ℤ status (pos 500)
answers _ = false

module _ (json : Decoders) where
  unfoldable pub static_info :
      Str → Option StaticResponse → Str → Except DiscoveryError EndpointInfo
  static_info url none body = err (unparsable body)
  static_info url (some r) body =
      if str_eq r.ingestor_url []
      then err missing_ingestor
      else ok (record {
        base_url = r.ingestor_url;
        region = r.region;
        capabilities = [];
        rate_limit = none;
        metadata = some (
            (codes "backend_url", r.backend_url)
            ∷ (codes "dashboard_url", r.dashboard_url)
            ∷ (codes "discovery_url", url)
            ∷ (codes "discovery", codes "static")
            ∷ []);
      })

  unfoldable pub static_result :
      Str → Except DiscoveryError Str → Except DiscoveryError EndpointInfo
  unfolding static_info
  static_result url (err e) = err e
  static_result url (ok body) = static_info url (json.static body) body

  unfoldable pub wrapped_info :
      Option (Option WrappedData) → Str → Except DiscoveryError EndpointInfo
  wrapped_info (some (some d)) body = ok (record {
    base_url = d.base_url;
    region = d.region;
    capabilities = d.capabilities;
    rate_limit = none;
    metadata = none;
  })
  wrapped_info _ body = err (unparsable body)

  unfoldable pub spec_info : Str → Option SpecResponse → Str → Except DiscoveryError EndpointInfo
  unfolding wrapped_info
  spec_info url none body = wrapped_info (json.wrapped body) body
  spec_info url (some r) body =
      if not (str_eq r.ingestor_url []) || not (str_eq r.backend_url [])
      then (if str_eq r.ingestor_url []
          then err missing_ingestor
          else ok (record {
            base_url = r.ingestor_url;
            region = r.data_residency;
            capabilities = r.features;
            rate_limit = none;
            metadata = some (
                (codes "backend_url", r.backend_url)
                ∷ (codes "environment", r.environment)
                ∷ (codes "discovery_url", url)
                ∷ []);
          }))
      else wrapped_info (json.wrapped body) body

  unfoldable pub spec_result : Str → Except DiscoveryError Str → Except DiscoveryError EndpointInfo
  unfolding spec_info
  spec_result url (err e) = err e
  spec_result url (ok body) = spec_info url (json.spec body) body

  -- `http` answers a request; its number is how many came before it.
  module _ (http : ℕ → Request → Reply) where
    unfoldable pub try_static_discovery : ℕ → Str → Except DiscoveryError EndpointInfo
    unfolding static_discovery_url static_result body_of
    try_static_discovery i region =
        let url = static_discovery_url region in
        static_result url (body_of (http i (record { url = url; authorization = none })))

    unfoldable pub try_discovery_url :
        ℕ → DiscoveryClient → Str → Except DiscoveryError EndpointInfo
    unfolding spec_result body_of
    try_discovery_url i d url = spec_result url (
        body_of
          (http i (record { url = url; authorization = some (codes "Bearer " ++ d.api_key) })))

    -- The loop over the URLs, from one on, with the URLs that it asks.
    unfoldable pub try_each :
        ℕ → DiscoveryClient → Str → List Str → List Str × Except DiscoveryError EndpointInfo
    unfolding try_discovery_url
    try_each i d url [] = (url ∷ [], last_result (try_discovery_url i d url))
    try_each i d url (next ∷ urls) =
        let rest = try_each (i + 1) d next urls in tried url (try_discovery_url i d url) rest

    -- The URLs that it asks, in order, and the result.
    unfoldable pub discover_endpoints :
        DiscoveryClient → List Str × Except DiscoveryError EndpointInfo
    unfolding extract_region_from_key try_static_discovery try_each
    discover_endpoints d =
        let region = (extract_region_from_key d.api_key).0 in
        let first = d.base_url ++ codes "/api/discovery" in
        if str_eq region []
        then try_each 0 d first gateways
        else (tried (static_discovery_url region) (try_static_discovery 0 region)
            (try_each 1 d first gateways))

    unfoldable pub test_endpoint : Str → Bool
    test_endpoint url = answers (http 0 (record { url = url; authorization = none }))

    -- nil is true; the endpoints are not nil.
    unfoldable pub validate_endpoints : EndpointInfo → Bool
    unfolding test_endpoint get_health_url
    validate_endpoints e = if str_eq e.base_url [] then false else test_endpoint (get_health_url e)
