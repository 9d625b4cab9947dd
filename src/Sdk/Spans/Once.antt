-- ===== src/Sdk/Spans/Once.antt =====
-- span.go: a span under any sequence of calls of its methods.
use logflux_go_sdk.Prelude.{List, [], ◌∷◌, Option, none, some, Str}
use logflux_go_sdk.Models.{Time}
use logflux_go_sdk.Tracing.{Span}
use logflux_go_sdk.Payload.{Fields}
use logflux_go_sdk.Payload.Errors.{ErrorValue}
use logflux_go_sdk.Payload.Json.{Value}
use logflux_go_sdk.Sdk.{Sdk, Moment}
use logflux_go_sdk.Sdk.Spans.{
  set_attribute, set_attributes, set_status, set_error, send_span, end_span,
}

pub data Change : Type 0 where
  attribute : Str → Str → Change
  attributes : Fields → Change
  status : Str → Change
  error : Option ErrorValue → Change

pub data SpanCall : Type 0 where
  change : Change → SpanCall
  finish : Moment → Time → SpanCall

-- The setters.
abbrev pub changed : Span → Change → Span
changed span (attribute k v) = set_attribute span k v
changed span (attributes attrs) = set_attributes span attrs
changed span (status text) = set_status span text
changed span (error e) = set_error span e

-- The span as it is when `End` is called for the first time, with what that call draws.
abbrev pub first_end : Span → List SpanCall → Option (Span × Moment × Time)
first_end span [] = none
first_end span (change c ∷ calls) = first_end (changed span c) calls
first_end span (finish m end_time ∷ calls) = some (span, m, end_time)

module _ (render : List (Str × Value) → Str) (format : Time → Str) where
  -- The package's state after a sequence of calls on a span.
  unfoldable pub run_span : Span → Sdk → List SpanCall → Sdk
  unfolding end_span
  run_span span s [] = s
  run_span span s (change c ∷ calls) = run_span (changed span c) s calls
  run_span span s (finish m end_time ∷ calls) =
      let (span', (s', e)) = end_span render format m s span end_time in run_span span' s' calls

  abbrev pub sent_once : Sdk → Option (Span × Moment × Time) → Sdk
  sent_once s none = s
  sent_once s (some (span, m, end_time)) = (send_span render format m s span end_time).0
