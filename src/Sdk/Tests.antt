-- ===== src/Sdk/Tests.antt =====
-- The theorems about logflux.go, span.go and scope.go at concrete inputs.
use logflux_go_sdk.Prelude.{
  ◌≡◌, refl, ap, pos, true, false, List, [], ◌∷◌, Option, none, some, ◌&&◌, Str, codes, join, All,
}
use logflux_go_sdk.Models.{Time}
use logflux_go_sdk.Breadcrumbs.{new_breadcrumb_ring}
use logflux_go_sdk.Payload.{configure, new_scope}
use logflux_go_sdk.Payload.Float.{float_one, is_finite, magnitude, infinity_bits}
use logflux_go_sdk.Payload.Errors.{ErrorValue, basic, wrapping}
use logflux_go_sdk.Payload.Json.{Value}
use logflux_go_sdk.Payload.Json.Keys.{keys}
use logflux_go_sdk.Payload.Sampler.{new_sampler}
use logflux_go_sdk.Tracing.{Span}
use logflux_go_sdk.Client.Resilient.Samples.{fresh, draws, exact}
use logflux_go_sdk.Client.Connect.Samples.{key, world}
use logflux_go_sdk.Sdk.Init.{Options, init}
use logflux_go_sdk.Sdk.Init.Start.{init-run-WaitTyped}
use logflux_go_sdk.Sdk.{Sdk, Moment, SdkError}
use logflux_go_sdk.Sdk.Calls.{
  Call, log_call, capture_call, metric_call, audit_call, span_end, scope_log, run, errors,
}
use logflux_go_sdk.Sdk.Calls.Quiet.{errors_silent}
use logflux_go_sdk.Sdk.Calls.Typed.{HoldsTyped, WaitTyped, run-WaitTyped}
use logflux_go_sdk.Sdk.Spans.Once.{SpanCall, change, finish, status, error, attribute}

abbrev render_keys : List (Str × Value) → Str
render_keys object = join (codes ",") (keys object)

abbrev clock_text : Time → Str
clock_text t = codes "2026-01-01T00:00:00Z"

abbrev moment : Moment
moment = record {
  draws = draws;
  ts = codes "2026-01-01T00:00:00Z";
  sample = float_one;
  frames = [];
}

-- A package whose client has room for one entry, in failsafe mode, with a sampler of rate 0.
abbrev sdk : Sdk
sdk = record {
  client = some fresh;
  breadcrumbs = some (new_breadcrumb_ring (pos 2));
  hooks = record {
    on_log = none;
    on_error = none;
    on_metric = none;
    on_event = none;
    on_audit = none;
    on_trace = none;
    on_telemetry = none;
  };
  sampler = some (new_sampler 0);
  context = configure (codes "api") (codes "prod") [];
}

abbrev span : Span
span = record {
  trace_id = codes "t";
  span_id = codes "s";
  parent_span_id = [];
  operation = codes "http.server";
  name = codes "GET /";
  start_time = 100;
  status = codes "ok";
  attributes = none;
  ended = false;
}

abbrev failure : ErrorValue
failure =
    wrapping (codes "*fmt.wrapError") (codes "load: gone")
      (basic (codes "*errors.errorString") (codes "gone"))

abbrev calls : List (Moment × Call)
calls =
    (moment, audit_call (codes "delete") (codes "ann") (codes "user") (codes "7") none)
    ∷ (moment, log_call (pos 7) (codes "started") none)
    ∷ (moment, capture_call (some failure) none)
    ∷ (moment, metric_call (codes "size") float_one (codes "gauge") none)
    ∷ (moment, span_end span 200)
    ∷ (moment, scope_log new_scope (pos 8) (codes "detail"))
    ∷ []

one_is_finite : is_finite float_one ≡ true
unfolding is_finite magnitude infinity_bits float_one
one_is_finite = refl

errors_silent_example :
    All (λ e. ◌≡◌ {A = Option SdkError} e none) (errors render_keys clock_text sdk calls)
errors_silent_example =
    errors_silent render_keys clock_text sdk calls refl
      (refl, (refl, (refl, (ap (λ b. b && true) one_is_finite, (refl, (refl, tt))))))

fresh-HoldsTyped : HoldsTyped render_keys fresh
fresh-HoldsTyped = record { unhooked = refl; all_typed = tt }

run-WaitTyped_example : WaitTyped render_keys (run render_keys clock_text sdk calls).client
run-WaitTyped_example = run-WaitTyped render_keys clock_text sdk calls fresh-HoldsTyped

abbrev span_calls : List SpanCall
span_calls =
    change (attribute (codes "http.method") (codes "GET"))
    ∷ change (error (some failure))
    ∷ finish moment 200
    ∷ change (status (codes "ok"))
    ∷ finish moment 300
    ∷ []

abbrev options : Options
options = record {
  api_key = key;
  node = codes "host";
  source = codes "api";
  environment = codes "prod";
  release = codes "1.2";
  custom_endpoint_url = codes "https://in";
  queue_size = pos 2;
  flush_interval = pos 0;
  batch_size = pos 0;
  worker_count = pos 0;
  http_timeout = pos 0;
  failsafe = true;
  enable_compression = true;
  max_breadcrumbs = pos 0;
  sample_rate = 0;
  before_send = none;
  hooks = sdk.hooks;
}

init-run-WaitTyped_example :
    WaitTyped render_keys (run render_keys clock_text (init world exact options sdk).0 calls).client
init-run-WaitTyped_example =
    init-run-WaitTyped render_keys clock_text world exact options sdk calls refl
