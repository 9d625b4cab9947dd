-- ===== src/Sdk/Middleware/Outcome.antt =====
-- The span that the middleware of chi, gin, echo and fiber sends for a request.
use logflux_go_sdk.Prelude.{
  ◌≡◌, refl, ap, ◌∙◌, ℤ, pos, leb_ℤ, Bool, true, false, Bool-cases, inl, inr, List, [], Option,
  none, some, if◌then◌else◌, Str, codes, str_eq, arith,
}
use logflux_go_sdk.Models.{Time}
use logflux_go_sdk.Tracing.{
  TraceContext, Span, extract_trace_context, parse_trace_header, continue_from_request,
  continue_with, start_span_with_trace_id, new_span,
}
use logflux_go_sdk.Payload.Json.{Value}
use logflux_go_sdk.Sdk.{Sdk}
use logflux_go_sdk.Sdk.Spans.{end_span}
use logflux_go_sdk.Sdk.Middleware.{
  Request, Handled, returned, panicked, Reply, answers_500, panics, Readings, Served, describe,
  request_span, fiber_span, finished, failed, is_failure, on_return, on_panic, serve_500,
  serve_again, chi, gin, echo, fiber, route_or_path, span_name, fiber_start, without_error,
  ignoring_error,
}

pub data Framework : Type 0 where
  on_chi on_gin on_echo on_fiber : Framework

-- Whether the request failed: by a panic, a status of 500 or more, or, in echo and fiber, an error.
abbrev pub has_failed : Framework → Handled → Bool
has_failed fw (panicked text) = true
has_failed on_chi (returned status error) = is_failure status none
has_failed on_gin (returned status error) = is_failure status none
has_failed on_echo (returned status error) = is_failure status error
has_failed on_fiber (returned status error) = is_failure status error

-- The parent of the span: that of the header, which fiber leaves out.
abbrev pub parent_of : Framework → TraceContext → Str
parent_of on_chi tc = tc.span_id
parent_of on_gin tc = tc.span_id
parent_of on_echo tc = tc.span_id
parent_of on_fiber tc = []

-- What the theorem speaks of: the trace, the parent, the status, and whether the span has ended.
abbrev core : Span → (Str × Str) × (Str × Bool)
core s = ((s.trace_id, s.parent_span_id), (s.status, s.ended))

abbrev pub status_text : Bool → Str
status_text bad = if bad then codes "error" else codes "ok"

describe-core : (span : Span) (r : Request) (route : Str) → core (describe span r route) ≡ core span
unfolding describe
describe-core span r route = elim (Bool-cases (str_eq r.peer [])) [
  | inl h ↦ rw h refl
  | inr h ↦ rw h refl
]

finished-core :
    (span : Span) (status : ℤ) (error : Option Str)
    → core (finished span status error) ≡ (
      (span.trace_id, span.parent_span_id),
      ((if is_failure status error then codes "error" else span.status), span.ended),
    )
unfolding finished
finished-core span status none = elim (Bool-cases (leb_ℤ (pos 500) status)) [
  | inl h ↦ rw h refl
  | inr h ↦ rw h refl
]
finished-core span status (some e) = refl

request_span-core :
    (x : Readings) (r : Request) (route : Str) (tc : TraceContext)
    → extract_trace_context r.trace_header ≡ some tc
    → core (request_span x r route) ≡ ((tc.trace_id, tc.span_id), (codes "ok", false))
unfolding request_span continue_from_request continue_with new_span
request_span-core x r route tc h =
    describe-core
      (continue_from_request r.trace_header x.trace_bytes x.span_bytes (codes "http.server")
        (span_name r route) x.start_time)
      r route
    ∙ rw h refl

parsed :
    (header : Str) (tc : TraceContext)
    → extract_trace_context header ≡ some tc
    → parse_trace_header header ≡ some tc
unfolding extract_trace_context
parsed header tc h = ground arith

fiber_span-core :
    (x : Readings) (r : Request) (tc : TraceContext)
    → extract_trace_context r.trace_header ≡ some tc
    → core (fiber_span x r) ≡ ((tc.trace_id, []), (codes "ok", false))
unfolding fiber_span start_span_with_trace_id new_span
fiber_span-core x r tc h =
    describe-core (fiber_start x (span_name r r.route) (parse_trace_header r.trace_header)) r
      r.route
    ∙ rw (parsed r.trace_header tc h) refl

module _ (render : List (Str × Value) → Str) (format : Time → Str) where
  end_span-core :
      (x : Readings) (s : Sdk) (span : Span) (ids : Str × Str) (status : Str)
      → core span ≡ (ids, (status, false))
      → core (end_span render format x.at_end s span x.end_time).0 ≡ (ids, (status, true))
  unfolding end_span
  end_span-core x s span ids status h = rw (ap (λ c. c.1.1) h) (ap (λ c. (c.0, (c.1.0, true))) h)

  on_return-core :
      (x : Readings) (s : Sdk) (span : Span) (ids : Str × Str) (status : ℤ) (error : Option Str)
      → core span ≡ (ids, (codes "ok", false))
      → core (on_return render format x s span status error).span
        ≡ (ids, (status_text (is_failure status error), true))
  unfolding on_return
  on_return-core x s span ids status error h =
      end_span-core x s (finished span status error) ids (status_text (is_failure status error)) (
        finished-core span status error
        ∙ ap (λ c. (c.0, ((if is_failure status error then codes "error" else c.1.0), c.1.1))) h)

  on_panic-core :
      (x : Readings) (s : Sdk) (span : Span) (ids : Str × Str) (r : Request) (route text : Str)
      (reply : Reply)
      → core span ≡ (ids, (codes "ok", false))
      → core (on_panic render format x s span r route text reply).span
        ≡ (ids, (codes "error", true))
  unfolding on_panic failed
  on_panic-core x s span ids r route text reply h =
      end_span-core x s (failed span text) ids (codes "error")
        (ap (λ c. (c.0, (codes "error", c.1.1))) h)

  module _ (handler : Request → Sdk → Sdk × Handled) where
    abbrev pub serve : Framework → Readings → Sdk → Request → Served
    serve on_chi = chi render format handler
    serve on_gin = gin render format handler
    serve on_echo = echo render format handler
    serve on_fiber = fiber render format handler

    serve_500-core :
        (x : Readings) (span : Span) (ids : Str × Str) (r : Request) (route : Str)
        (after : Sdk × Handled)
        → core span ≡ (ids, (codes "ok", false))
        → core (serve_500 render format x span r route after).span
          ≡ (ids, (status_text (has_failed on_fiber after.1), true))
    unfolding serve_500
    serve_500-core x span ids r route (s, returned status error) h =
        on_return-core x s span ids status error h
    serve_500-core x span ids r route (s, panicked text) h =
        on_panic-core x s span ids r route text answers_500 h

    serve_again-core :
        (x : Readings) (span : Span) (ids : Str × Str) (r : Request) (route : Str)
        (after : Sdk × Handled)
        → core span ≡ (ids, (codes "ok", false))
        → core (serve_again render format x span r route after).span
          ≡ (ids, (status_text (has_failed on_fiber after.1), true))
    unfolding serve_again
    serve_again-core x span ids r route (s, returned status error) h =
        on_return-core x s span ids status error h
    serve_again-core x span ids r route (s, panicked text) h =
        on_panic-core x s span ids r route text (panics text) h

    ignored : (h : Handled) → has_failed on_fiber (without_error h) ≡ has_failed on_chi h
    ignored (returned status error) = refl
    ignored (panicked text) = refl

    by_status :
        (x : Readings) (s : Sdk) (r : Request) (route : Str) (tc : TraceContext)
        → extract_trace_context r.trace_header ≡ some tc
        → core
            (serve_500 render format x
              (request_span x r route)
              r
              route
              (ignoring_error (handler r s))).span
          ≡ ((tc.trace_id, tc.span_id), (status_text (has_failed on_chi (handler r s).1), true))
    by_status x s r route tc h =
        serve_500-core x (request_span x r route) (tc.trace_id, tc.span_id) r route
          (ignoring_error (handler r s)) (request_span-core x r route tc h)
        ∙ ap (λ b. ((tc.trace_id, tc.span_id), (status_text b, true))) (ignored (handler r s).1)

    failed_alike : (h : Handled) → has_failed on_chi h ≡ has_failed on_gin h
    failed_alike (returned status error) = refl
    failed_alike (panicked text) = refl

    echo_alike : (h : Handled) → has_failed on_fiber h ≡ has_failed on_echo h
    echo_alike (returned status error) = refl
    echo_alike (panicked text) = refl

    serve-core :
        (fw : Framework) (x : Readings) (s : Sdk) (r : Request) (tc : TraceContext)
        → extract_trace_context r.trace_header ≡ some tc
        → core (serve fw x s r).span
          ≡ ((tc.trace_id, parent_of fw tc), (status_text (has_failed fw (handler r s).1), true))
    unfolding chi gin echo fiber
    serve-core on_chi x s r tc h = by_status x s r (route_or_path r) tc h
    serve-core on_gin x s r tc h =
        by_status x s r r.route tc h
        ∙ ap (λ b. ((tc.trace_id, tc.span_id), (status_text b, true)))
            (failed_alike (handler r s).1)
    serve-core on_echo x s r tc h =
        serve_again-core x (request_span x r (route_or_path r)) (tc.trace_id, tc.span_id) r
          (route_or_path r) (handler r s) (request_span-core x r (route_or_path r) tc h)
        ∙ ap (λ b. ((tc.trace_id, tc.span_id), (status_text b, true))) (echo_alike (handler r s).1)
    serve-core on_fiber x s r tc h =
        serve_500-core x (fiber_span x r) (tc.trace_id, []) r r.route (handler r s)
          (fiber_span-core x r tc h)

    -- For a request with a trace header that `ExtractTraceContext` reads, whatever the handler does, a panic
    -- included: when the middleware of chi, gin, echo or fiber is done, the span has ended; it is in the
    -- trace of the header; its parent is that of the header, except in fiber, where it has none; and its
    -- status is `error` exactly if the handler panicked, the status of the response is 500 or more, or, in
    -- echo and fiber, the handler returned an error.
    pub serve-Linked :
        (fw : Framework) (x : Readings) (s : Sdk) (r : Request) (tc : TraceContext)
        → extract_trace_context r.trace_header ≡ some tc
        → ((serve fw x s r).span.ended ≡ true)
          × ((serve fw x s r).span.trace_id ≡ tc.trace_id)
          × ((serve fw x s r).span.parent_span_id ≡ parent_of fw tc)
          × ((serve fw x s r).span.status ≡ status_text (has_failed fw (handler r s).1))
    serve-Linked fw x s r tc h =
        let same = serve-core fw x s r tc h in
        (ap (λ c. c.1.1) same, ap (λ c. c.0.0) same, ap (λ c. c.0.1) same, ap (λ c. c.1.0) same)
