-- ===== src/Sdk/Spans.antt =====
-- span.go: the setters of a span, and its end, which sends it. `format` is the RFC 3339 text of a time.
pub mod Once
use logflux_go_sdk.Prelude.{
  Bool, true, List, [], Option, none, some, if◌then◌else◌, Str, codes, get_or_else,
}
use logflux_go_sdk.Models.{Time, Labels, log_level_info, entry_type_trace}
use logflux_go_sdk.Tracing.{Span}
use logflux_go_sdk.Payload.{Common, Fields, assign, assign_all}
use logflux_go_sdk.Payload.Kinds.{Trace, new_trace}
use logflux_go_sdk.Payload.Errors.{ErrorValue, text_of}
use logflux_go_sdk.Payload.Json.{Value, trace_payload}
use logflux_go_sdk.Client.Resilient.State.{ResilientClient}
use logflux_go_sdk.Sdk.{
  Sdk, Moment, SdkError, with_client, run_typed_hook, unless_dropped, send_payload,
}
use logflux_go_sdk.Sdk.Sending.{in_context}

unfoldable pub set_attribute : Span → Str → Str → Span
set_attribute s key value = record s {
  attributes = some (assign key value (get_or_else s.attributes []));
}

unfoldable pub set_attributes : Span → Fields → Span
set_attributes s attrs = record s {
  attributes = some (assign_all (get_or_else s.attributes []) attrs);
}

unfoldable pub set_status : Span → Str → Span
set_status s status = record s { status = status }

unfoldable pub set_error : Span → Option ErrorValue → Span
set_error s none = s
set_error s (some e) = record s {
  status = codes "error";
  attributes = some (assign (codes "error.message") (text_of e) (get_or_else s.attributes []));
}

module _ (render : List (Str × Value) → Str) (format : Time → Str) where
  -- The payload of a span that ends at a time, with its context and attributes.
  unfoldable pub trace_of : Moment → Sdk → Span → Time → Trace
  unfolding new_trace in_context
  trace_of m s span end_time =
      let new =
        new_trace format m.ts (codes "") span.trace_id span.span_id span.operation span.name
          span.start_time end_time in
      record new {
        parent_span_id = span.parent_span_id;
        status = span.status;
        common = in_context s new.common span.attributes;
      }

  -- `End` from the call of `getClient` on.
  unfoldable pub send_span : Moment → Sdk → Span → Time → Sdk × Option SdkError
  unfolding trace_of
  send_span m s span end_time = with_client s s.client (λ c.
      unless_dropped s (run_typed_hook s.hooks.on_trace (trace_of m s span end_time))
        (λ p. send_payload render m s c (trace_payload p) log_level_info entry_type_trace))

  unfoldable pub end_span : Moment → Sdk → Span → Time → Span × (Sdk × Option SdkError)
  unfolding send_span
  end_span m s span end_time =
      if span.ended
      then (span, (s, none))
      else (record span { ended = true }, send_span m s span end_time)
