-- ===== src/Discovery/Order.antt =====
-- pkg/discovery/discovery.go: which attempts discovery makes, and which one decides.
use logflux_go_sdk.Prelude.{
  ℕ, ◌+◌, List, [], ◌∷◌, ◌++◌, if◌then◌else◌, Str, codes, str_eq, Except, ok, err,
}
use logflux_go_sdk.Discovery.{
  DiscoveryClient, DiscoveryError, all_failed, EndpointInfo, Request, Reply, Decoders,
  extract_region_from_key, static_discovery_url,
}
use logflux_go_sdk.Discovery.Attempts.{gateways, try_static_discovery, try_discovery_url}

-- An attempt: the URL, and what came of it.
abbrev pub Attempt : Type 0
Attempt = Str × Except DiscoveryError EndpointInfo

-- The search through attempts, with the URLs asked and the result: it stops at the first success, and
-- fails with the last error if there is none.
pub data Search : List Attempt → List Str × Except DiscoveryError EndpointInfo → Type 0 where
  success :
      (url : Str) (info : EndpointInfo) (rest : List Attempt)
      → Search ((url, ok info) ∷ rest) (url ∷ [], ok info)
  failure :
      (url : Str) (e : DiscoveryError) (next : Attempt) (rest : List Attempt) (urls : List Str)
      (r : Except DiscoveryError EndpointInfo)
      → Search (next ∷ rest) (urls, r)
      → Search ((url, err e) ∷ next ∷ rest) (url ∷ urls, r)
  last :
      (url : Str) (e : DiscoveryError) → Search ((url, err e) ∷ []) (url ∷ [], err (all_failed e))

module _ (json : Decoders) (http : ℕ → Request → Reply) where
  -- The attempts at the gateways, from a number on.
  abbrev pub gateway_attempts : ℕ → DiscoveryClient → List Str → List Attempt
  gateway_attempts i d [] = []
  gateway_attempts i d (url ∷ urls) =
      (url, try_discovery_url json http i d url) ∷ gateway_attempts (i + 1) d urls

  -- All the attempts that discovery may make, in order.
  abbrev pub attempts : DiscoveryClient → List Attempt
  attempts d =
      let region = (extract_region_from_key d.api_key).0 in
      let urls = (d.base_url ++ codes "/api/discovery") ∷ gateways in
      if str_eq region []
      then gateway_attempts 0 d urls
      else ((static_discovery_url region, try_static_discovery json http 0 region)
          ∷ gateway_attempts 1 d urls)
