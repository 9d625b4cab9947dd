-- ===== src/Sdk/Middleware/Tests.antt =====
-- The middleware of the web frameworks on a request whose handler panics.
use logflux_go_sdk.Prelude.{◌≡◌, refl, true, List, [], none, some, Str, codes, replicate, ◌++◌, ◌∷◌}
use logflux_go_sdk.Models.{Time}
use logflux_go_sdk.Payload.{configure}
use logflux_go_sdk.Payload.Float.{float_one}
use logflux_go_sdk.Payload.Json.{Value}
use logflux_go_sdk.Tracing.{
  TraceContext, parse_trace_header, extract_trace_context, decodes, all_hex,
}
use logflux_go_sdk.Client.Resilient.Samples.{fresh, draws}
use logflux_go_sdk.Sdk.{Sdk, Moment}
use logflux_go_sdk.Sdk.Middleware.{Request, Handled, panicked, Readings}
use logflux_go_sdk.Sdk.Middleware.Outcome.{on_echo, serve, serve-Linked}

abbrev no_text : List (Str × Value) → Str
no_text object = []

abbrev no_time : Time → Str
no_time t = []

abbrev moment : Moment
moment = record {
  draws = draws;
  ts = codes "2026-01-01T00:00:00Z";
  sample = float_one;
  frames = [];
}

abbrev sdk : Sdk
sdk = record {
  client = some fresh;
  breadcrumbs = none;
  hooks = record {
    on_log = none;
    on_error = none;
    on_metric = none;
    on_event = none;
    on_audit = none;
    on_trace = none;
    on_telemetry = none;
  };
  sampler = none;
  context = configure (codes "api") (codes "prod") [];
}

abbrev zeros : TraceContext
zeros = record { trace_id = replicate 32 48; span_id = replicate 16 48; sampled = true }

abbrev request : Request
request = record {
  method = codes "GET";
  path = codes "/users/7";
  url = codes "/users/7?all";
  route = codes "/users/:id";
  peer = [];
  trace_header = replicate 32 48 ++ 45 ∷ replicate 16 48;
}

abbrev readings : Readings
readings = record {
  trace_bytes = replicate 16 1;
  span_bytes = replicate 8 7;
  start_time = 100;
  end_time = 250;
  at_end = moment;
  at_capture = moment;
}

abbrev broken : Request → Sdk → Sdk × Handled
broken r s = (s, panicked (codes "boom"))

header_read : extract_trace_context request.trace_header ≡ some zeros
unfolding extract_trace_context parse_trace_header decodes all_hex
header_read = refl

serve-Linked_example :
    ((serve no_text no_time broken on_echo readings sdk request).span.ended ≡ true)
    × ((serve no_text no_time broken on_echo readings sdk request).span.trace_id ≡ replicate 32 48)
    × ((serve no_text no_time broken on_echo readings sdk request).span.parent_span_id
        ≡ replicate 16 48)
    × ((serve no_text no_time broken on_echo readings sdk request).span.status ≡ codes "error")
serve-Linked_example =
    serve-Linked no_text no_time broken on_echo readings sdk request zeros header_read
