-- ===== src/Client/Checks.antt =====
-- pkg/client/client.go and pkg/client/resilient_client.go: HealthCheck and GetVersion, which both clients
-- have. `http` answers a GET request to a URL.
use logflux_go_sdk.Prelude.{
  ℤ, pos, eqb_ℤ, Option, none, some, if◌then◌else◌, Str, codes, ◌++◌, Except, err,
}
use logflux_go_sdk.Retry.Errors.{int_text}
use logflux_go_sdk.Discovery.{EndpointInfo, get_health_url, get_version_url}

-- What becomes of the request; `decoded` is what the JSON decoder makes of the body, or its error.
pub data Answer (A : Type 0) : Type 0 where
  no_request no_response : Str → Answer A
  responded : ℤ → Str → Except Str A → Answer A

-- The text of the error, none for nil.
abbrev healthy : {A : Type 0} → Answer A → Option Str
healthy (no_request text) = some text
healthy (no_response text) = some text
healthy (responded status body decoded) =
    if eqb_ℤ status (pos 200) then none else some (codes "health check failed: " ++ int_text status)

abbrev version_in : {A : Type 0} → Answer A → Except Str A
version_in (no_request text) = err text
version_in (no_response text) = err text
version_in (responded status body decoded) =
    if eqb_ℤ status (pos 200)
    then decoded
    else err (codes "version request failed: " ++ int_text status ++ codes ": " ++ body)

unfoldable pub health_check : {A : Type 0} → EndpointInfo → (Str → Answer A) → Option Str
unfolding get_health_url
health_check endpoints http = healthy (http (get_health_url endpoints))

unfoldable pub get_version : {A : Type 0} → EndpointInfo → (Str → Answer A) → Except Str A
unfolding get_version_url
get_version endpoints http = version_in (http (get_version_url endpoints))
