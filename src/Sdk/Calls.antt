-- ===== src/Sdk/Calls.antt =====
-- logflux.go, span.go and scope.go: the calls of a program as data, and histories of them.
pub mod Outcome
pub mod Quiet
pub mod Sampling
pub mod Typed
use logflux_go_sdk.Prelude.{ℤ, Bool, true, false, List, [], ◌∷◌, Option, none, some, Str}
use logflux_go_sdk.Models.{Time, Labels}
use logflux_go_sdk.Payload.{Scope}
use logflux_go_sdk.Payload.Float.{Float64}
use logflux_go_sdk.Payload.Errors.{ErrorValue}
use logflux_go_sdk.Payload.Json.{Value}
use logflux_go_sdk.Tracing.{Span}
use logflux_go_sdk.Sdk.{
  Sdk, Moment, SdkError, add_breadcrumb, add_breadcrumb_with_level, clear_breadcrumbs,
}
use logflux_go_sdk.Sdk.Sending.{
  log, capture_error_with_attrs, capture_error_with_message, metric, event, audit,
}
use logflux_go_sdk.Sdk.Spans.{end_span}
use logflux_go_sdk.Sdk.Scopes

-- The calls that can send, and those on the breadcrumbs. A span and a scope are given as they are at
-- the call; what the call changes in them is not the package's state.
pub data Call : Type 0 where
  log_call : ℤ → Str → Labels → Call
  capture_call : Option ErrorValue → Labels → Call
  message_call : Option ErrorValue → Str → Labels → Call
  metric_call : Str → Float64 → Str → Labels → Call
  event_call : Str → Labels → Call
  audit_call : Str → Str → Str → Str → Labels → Call
  breadcrumb_call : Str → Str → Str → Labels → Call
  clear_call : Call
  span_end : Span → Time → Call
  scope_log : Scope → ℤ → Str → Call
  scope_capture : Scope → Option ErrorValue → Call
  scope_event : Scope → Str → Labels → Call

module _ (render : List (Str × Value) → Str) (format : Time → Str) where
  unfoldable pub perform : Moment → Sdk → Call → Sdk × Option SdkError
  unfolding end_span
  perform m s (log_call level message attrs) = log render m s level message attrs
  perform m s (capture_call e attrs) = capture_error_with_attrs render m s e attrs
  perform m s (message_call e message attrs) = capture_error_with_message render m s e message attrs
  perform m s (metric_call name value kind attrs) = metric render m s name value kind attrs
  perform m s (event_call name attrs) = event render m s name attrs
  perform m s (audit_call action actor resource id attrs) =
      audit render m s action actor resource id attrs
  perform m s (breadcrumb_call category message level attached) =
      (add_breadcrumb_with_level m s category message level attached, none)
  perform m s clear_call = (clear_breadcrumbs s, none)
  perform m s (span_end span end_time) = (end_span render format m s span end_time).1
  perform m s (scope_log scope level message) = (Scopes.log render m s scope level message).1
  perform m s (scope_capture scope e) = (Scopes.capture_error render m s scope e).1
  perform m s (scope_event scope name attrs) = (Scopes.event render m s scope name attrs).1

  -- The state after a history of calls.
  unfoldable pub run : Sdk → List (Moment × Call) → Sdk
  unfolding perform
  run s [] = s
  run s ((m, call) ∷ calls) = run (perform m s call).0 calls

  -- What the calls of a history return.
  unfoldable pub errors : Sdk → List (Moment × Call) → List (Option SdkError)
  unfolding perform
  errors s [] = []
  errors s ((m, call) ∷ calls) = let (s', error) = perform m s call in error ∷ errors s' calls
