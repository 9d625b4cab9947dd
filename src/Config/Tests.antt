-- ===== src/Config/Tests.antt =====
-- Tests of pkg/config/config.go.
use logflux_go_sdk.Prelude.{◌≡◌, refl, none, some, Str, codes, has_prefix, str_eq}
use logflux_go_sdk.Tracing.{split_n, cut_dash}
use logflux_go_sdk.Config.{
  is_region, validate_parts, validate_api_key, unknown_region, not_two_parts, no_lf_prefix,
  empty_body,
}

abbrev key : Str
key = codes "eu-lf_abc123xyz"

key_accepted : validate_api_key key ≡ none
unfolding validate_api_key validate_parts split_n cut_dash is_region has_prefix str_eq
key_accepted = refl

refusals :
    (validate_api_key (codes "lf_abc") ≡ some not_two_parts)
    × (validate_api_key (codes "xx-lf_abc") ≡ some (unknown_region (codes "xx")))
    × (validate_api_key (codes "us-abc") ≡ some no_lf_prefix)
    × (validate_api_key (codes "us-lf_") ≡ some empty_body)
unfolding validate_api_key validate_parts split_n cut_dash is_region has_prefix str_eq
refusals = (refl, refl, refl, refl)
