-- ===== src/Payload/Tests.antt =====
-- Tests of pkg/payload/context.go and scope.go, and the theorems at concrete inputs.
use logflux_go_sdk.Prelude.{
  ◌≡◌, refl, true, List, ◌*◌, ◌^◌, leb, length, take, pos, [], ◌∷◌, none, some, if◌then◌else◌,
  codes, str_eq,
}
use mathlib.Core.List.Perm
use mathlib.Core.Quot
use logflux_go_sdk.Models.{Labels}
use logflux_go_sdk.Payload.{
  lookup, assign, merge_missing, Common, GlobalContext, configure, apply_context, Scope, new_scope,
  set_request, set_user,
}
use logflux_go_sdk.Payload.Float.{
  Float64, float_one, float_zero, float_lt, float_le, rank, magnitude, is_nan, infinity_bits,
}
use logflux_go_sdk.Payload.Sampler.{new_sampler, should_sample}
use logflux_go_sdk.Payload.Sampler.Rate.{should_sample-new_sampler}
use logflux_go_sdk.Payload.Errors.{
  ErrorValue, basic, wrapping, StackFrame, text_of, error_type_name, new_error_payload,
}
use logflux_go_sdk.Payload.Errors.Chain.{errors_in, own_frames, new_error_payload-keeps}
use logflux_go_sdk.Payload.Merge.Order.{GoMap, Visits, applied, apply_context-Visits}
use logflux_go_sdk.Payload.Merge.{first_given, lookup_in, apply_context-lookup}

abbrev bare : Common
bare = record {
  version = codes "2.0";
  type_name = codes "log";
  source = [];
  level = pos 7;
  ts = codes "2026-01-01T00:00:00Z";
  metadata = some ((codes "release", codes "2") ∷ []);
  attributes = some ((codes "user.id", codes "u1") ∷ []);
}

abbrev global : GlobalContext
global = configure (codes "api") (codes "prod") (codes "1")

filled_in : apply_context global bare ≡ record bare {
  source = codes "api";
  metadata = some ((codes "release", codes "2") ∷ (codes "environment", codes "prod") ∷ []);
}
unfolding apply_context configure lookup assign str_eq merge_missing
filled_in = refl

apply_context-lookup_example :
    (lookup_in (codes "release") (apply_context global bare).metadata
      ≡ first_given
          (lookup_in (codes "release") bare.metadata)
          (lookup_in (codes "release") global.default_meta))
    × ((apply_context global bare).source ≡ (if str_eq [] [] then global.source else []))
apply_context-lookup_example = apply_context-lookup global bare (codes "release")

abbrev request : Scope
request = set_user (set_request new_scope (codes "GET") (codes "/") []) (codes "u2")

request_fields :
    request.scope_attributes
    ≡ (codes "http.method", codes "GET")
      ∷ (codes "http.path", codes "/")
      ∷ (codes "user.id", codes "u2")
      ∷ []
unfolding set_user set_request new_scope assign str_eq
request_fields = refl

abbrev half : Float64
half = 1022 * 2 ^ 52

half_below_one : (float_le float_zero half ≡ true) × (float_lt half float_one ≡ true)
unfolding float_lt float_le rank magnitude is_nan infinity_bits float_one
half_below_one = (refl, refl)

should_sample-new_sampler_example :
    should_sample (new_sampler float_one) half ≡ float_lt half float_one
should_sample-new_sampler_example =
    should_sample-new_sampler float_one half half_below_one.0 half_below_one.1

abbrev failure : ErrorValue
failure =
    wrapping (codes "*fmt.wrapError") (codes "load: gone")
      (basic (codes "*errors.errorString") (codes "gone"))

abbrev frames : List StackFrame
frames =
    record { function = codes "runtime.main"; file = codes "proc.go"; line = 250 }
    ∷ record { function = codes "main.main"; file = codes "main.go"; line = 7 }
    ∷ []

new_error_payload-keeps_example :
    let p = new_error_payload (codes "now") frames (codes "api") failure in
    (p.message ≡ text_of failure)
    × (p.error_type ≡ error_type_name failure)
    × (p.error_chain
        ≡ (if leb (length (errors_in failure)) 1 then [] else take 10 (errors_in failure)))
    × (p.stack_trace ≡ take 20 (own_frames frames))
new_error_payload-keeps_example = new_error_payload-keeps (codes "now") frames (codes "api") failure

abbrev seen : Labels
seen = some ((codes "a", codes "1") ∷ (codes "b", codes "2") ∷ [])

abbrev seen_again : Labels
seen_again = some ((codes "b", codes "2") ∷ (codes "a", codes "1") ∷ [])

two_orders : Visits seen seen_again
unfolding lookup str_eq
two_orders = ((refl, (refl, tt)), Perm.swap (codes "b", codes "2") (codes "a", codes "1") [])

apply_context-Visits_example :
    ◌≡◌ {A = GoMap}
      (Quot.mk (applied global bare none seen))
      (Quot.mk (applied global bare none seen_again))
apply_context-Visits_example =
    apply_context-Visits global bare none none seen seen_again tt two_orders
