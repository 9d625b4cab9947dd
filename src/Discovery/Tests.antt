-- ===== src/Discovery/Tests.antt =====
-- The theorem about pkg/discovery/discovery.go at a concrete input, and what the search finds there.
use logflux_go_sdk.Prelude.{
  ◌≡◌, refl, ℕ, pos, [], ◌∷◌, none, some, codes, if◌then◌else◌, ◌==◌, str_eq, has_prefix,
}
use logflux_go_sdk.Discovery.{
  DiscoveryClient, Decoders, Request, Reply, responded, no_response, new_discovery_client,
}
use logflux_go_sdk.Discovery.Attempts.{discover_endpoints}

abbrev client : DiscoveryClient
client = new_discovery_client (codes "eu-lf_abc")

-- Only the third request is answered, with the name of the ingest service for a body.
abbrev http : ℕ → Request → Reply
http i r =
    if i == 2
    then responded (pos 200) (some (codes "https://ingest.eu"))
    else no_response (codes "timeout")

abbrev json : Decoders
json = record {
  static = λ body. none;
  spec = λ body. some (record {
    data_residency = codes "eu";
    backend_url = [];
    ingestor_url = body;
    environment = [];
    features = [];
  });
  wrapped = λ body. none;
}

third :
    (discover_endpoints json http client).0
    ≡ codes "https://discover.eu.logflux.io"
      ∷ codes "https://api.logflux.io/api/discovery"
      ∷ codes "https://api.logflux.io/api/discovery"
      ∷ []
unfolding discover_endpoints str_eq has_prefix new_discovery_client
third = refl
