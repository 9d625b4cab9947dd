-- ===== src/Sdk/Middleware.antt =====
-- chi/logflux.go, gin/logflux.go, echo/logflux.go, fiber/logflux.go, and `TracingMiddleware` of tracing.go:
-- a span for each request. What the framework says of a request is data, the handler a function on the
-- state of the package; a panic is the text that `%v` writes for its value.
pub mod Outcome
mod Tests
use logflux_go_sdk.Prelude.{
  ℕ, ℤ, pos, leb_ℤ, Bool, true, false, ◌||◌, List, [], ◌∷◌, ◌++◌, Option, none, some, if◌then◌else◌,
  Str, codes, str_eq,
}
use logflux_go_sdk.Models.{Time}
use logflux_go_sdk.Retry.Errors.{int_text}
use logflux_go_sdk.Tracing.{
  TraceContext, Span, start_span, start_span_with_trace_id, continue_from_request,
  parse_trace_header,
}
use logflux_go_sdk.Payload.{Fields}
use logflux_go_sdk.Payload.Errors.{basic}
use logflux_go_sdk.Payload.Json.{Value}
use logflux_go_sdk.Sdk.{Sdk, Moment, SdkError}
use logflux_go_sdk.Sdk.Sending.{capture_error_with_attrs}
use logflux_go_sdk.Sdk.Spans.{set_attribute, set_status, end_span}

-- `route` is the pattern that the framework matched, and `peer` the address that it gives.
pub record Request : Type 0 where
  pub method : Str
  pub path : Str
  pub url : Str
  pub route : Str
  pub peer : Str
  pub trace_header : Str

-- How the handler ends: with the status of the response and an error or none, or with a panic.
pub data Handled : Type 0 where
  returned : ℤ → Option Str → Handled
  panicked : Str → Handled

-- What the middleware does in the end: it returns, with an error or none; it answers 500; or it panics.
pub data Reply : Type 0 where
  passes : Option Str → Reply
  answers_500 : Reply
  panics : Str → Reply

-- What is read at a request: random bytes, the clock at both ends, and the moments of the two sends.
pub record Readings : Type 0 where
  pub trace_bytes : List ℕ
  pub span_bytes : List ℕ
  pub start_time : Time
  pub end_time : Time
  pub at_end : Moment
  pub at_capture : Moment

pub record Served : Type 0 where
  pub sdk : Sdk
  pub span : Span
  pub reply : Reply

abbrev pub route_or_path : Request → Str
route_or_path r = if str_eq r.route [] then r.path else r.route

abbrev with_peer : Span → Str → Span
with_peer span peer = if str_eq peer [] then span else set_attribute span (codes "net.peer.ip") peer

-- The attributes that all the middleware sets first.
unfoldable pub describe : Span → Request → Str → Span
unfolding set_attribute
describe span r route =
    let span' =
      set_attribute (set_attribute span (codes "http.method") r.method) (codes "http.url") r.url in
    with_peer (set_attribute span' (codes "http.route") route) r.peer

abbrev pub span_name : Request → Str → Str
span_name r route = r.method ++ (codes " " ++ route)

-- The span of a request in chi, gin and echo.
unfoldable pub request_span : Readings → Request → Str → Span
unfolding continue_from_request describe
request_span x r route =
    describe
      (continue_from_request r.trace_header x.trace_bytes x.span_bytes (codes "http.server")
        (span_name r route) x.start_time)
      r route

abbrev pub fiber_start : Readings → Str → Option TraceContext → Span
fiber_start x name none =
    start_span x.trace_bytes x.span_bytes (codes "http.server") name x.start_time
fiber_start x name (some tc) =
    start_span_with_trace_id tc.trace_id x.span_bytes (codes "http.server") name x.start_time

-- In fiber.
unfoldable pub fiber_span : Readings → Request → Span
unfolding parse_trace_header start_span start_span_with_trace_id describe
fiber_span x r =
    describe (fiber_start x (span_name r r.route) (parse_trace_header r.trace_header)) r r.route

abbrev pub is_failure : ℤ → Option Str → Bool
is_failure status none = leb_ℤ (pos 500) status
is_failure status (some e) = true

abbrev with_error : Span → Option Str → Span
with_error span none = span
with_error span (some e) = set_attribute span (codes "error.message") e

-- The span with the status of the response.
unfoldable pub finished : Span → ℤ → Option Str → Span
unfolding set_attribute set_status
finished span status error =
    let span' = set_attribute span (codes "http.status_code") (int_text status) in
    if is_failure status error then with_error (set_status span' (codes "error")) error else span'

unfoldable pub failed : Span → Str → Span
unfolding set_attribute set_status
failed span text = set_attribute (set_status span (codes "error")) (codes "error.message") text

-- In chi and gin the status decides alone; in echo and fiber an error of the handler counts too.
abbrev pub without_error : Handled → Handled
without_error (returned status error) = returned status none
without_error (panicked text) = panicked text

abbrev pub ignoring_error : Sdk × Handled → Sdk × Handled
ignoring_error (s, h) = (s, without_error h)

module _ (render : List (Str × Value) → Str) (format : Time → Str) where
  abbrev pub served : Span × (Sdk × Option SdkError) → Reply → Served
  served (span, (s, error)) reply = record { sdk = s; span = span; reply = reply }

  -- After the handler has returned.
  unfoldable pub on_return : Readings → Sdk → Span → ℤ → Option Str → Served
  unfolding end_span finished
  on_return x s span status error =
      served (end_span render format x.at_end s (finished span status error) x.end_time)
        (passes error)

  abbrev request_fields : Request → Str → Fields
  request_fields r route =
      (codes "http.method", r.method) ∷ (codes "http.url", r.url) ∷ (codes "http.route", route) ∷ []

  -- After it has panicked: the span ends, then the panic is captured as an error.
  unfoldable pub on_panic : Readings → Sdk → Span → Request → Str → Str → Reply → Served
  unfolding end_span failed capture_error_with_attrs
  on_panic x s span r route text reply =
      capture (end_span render format x.at_end s (failed span text) x.end_time)
    where
      capture : Span × (Sdk × Option SdkError) → Served
      capture (ended, (s', error)) = record {
        sdk =
            (capture_error_with_attrs render x.at_capture s'
              (some (basic (codes "*errors.errorString") (codes "panic: " ++ text)))
              (some (request_fields r route))).0;
        span = ended;
        reply = reply;
      }

  unfoldable pub serve_500 : Readings → Span → Request → Str → Sdk × Handled → Served
  unfolding on_return on_panic
  serve_500 x span r route (s, returned status error) = on_return x s span status error
  serve_500 x span r route (s, panicked text) = on_panic x s span r route text answers_500

  unfoldable pub serve_again : Readings → Span → Request → Str → Sdk × Handled → Served
  unfolding on_return on_panic
  serve_again x span r route (s, returned status error) = on_return x s span status error
  serve_again x span r route (s, panicked text) = on_panic x s span r route text (panics text)

  module _ (handler : Request → Sdk → Sdk × Handled) where
    unfoldable pub chi : Readings → Sdk → Request → Served
    unfolding request_span serve_500
    chi x s r =
        serve_500 x (request_span x r (route_or_path r)) r (route_or_path r)
          (ignoring_error (handler r s))

    unfoldable pub gin : Readings → Sdk → Request → Served
    unfolding request_span serve_500
    gin x s r = serve_500 x (request_span x r r.route) r r.route (ignoring_error (handler r s))

    unfoldable pub echo : Readings → Sdk → Request → Served
    unfolding request_span serve_again
    echo x s r =
        serve_again x (request_span x r (route_or_path r)) r (route_or_path r) (handler r s)

    unfoldable pub fiber : Readings → Sdk → Request → Served
    unfolding fiber_span serve_500
    fiber x s r = serve_500 x (fiber_span x r) r r.route (handler r s)

    abbrev unguarded : Readings → Span → Sdk × Handled → Served
    unguarded x span (s, returned status error) = on_return x s span status none
    unguarded x span (s, panicked text) = record { sdk = s; span = span; reply = panics text }

    -- Of tracing.go: a panic of the handler goes on, and the span is left as it is.
    unfoldable pub tracing_middleware : Readings → Sdk → Request → Served
    unfolding continue_from_request set_attribute on_return
    tracing_middleware x s r =
        let start =
          continue_from_request r.trace_header x.trace_bytes x.span_bytes (codes "http.server")
            (span_name r r.path) x.start_time in
        unguarded x
          (set_attribute (set_attribute start (codes "http.method") r.method) (codes "http.url")
            r.url)
          (handler r s)
