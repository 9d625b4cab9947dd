-- ===== src/Sdk/Calls/Outcome.antt =====
-- logflux.go, span.go and scope.go: a call either leaves the client alone, or offers it one payload
-- under the entry type of the payload.
use logflux_go_sdk.Prelude.{
  ◌≡◌, refl, sym, ap, ◌∙◌, ℤ, pos, Bool, true, false, Bool-cases, inl, inr, codes, ◌&&◌, List,
  Option, none, some, is_none, if◌then◌else◌, Str, arith,
}
use logflux_go_sdk.Models.{
  Time, Labels, entry_type_log, entry_type_metric, entry_type_trace, entry_type_event,
  entry_type_audit, entry_type_telemetry,
}
use logflux_go_sdk.Breadcrumbs.{BreadcrumbRing}
use logflux_go_sdk.Payload.Float.{Float64, is_finite}
use logflux_go_sdk.Payload.Kinds.{Metric, new_gauge}
use logflux_go_sdk.Payload.Json.{
  Payload, log_payload, error_payload, metric_payload, trace_payload, event_payload, audit_payload,
  telemetry_payload, Value, has_finite_values,
}
use logflux_go_sdk.Client.Resilient.State.{ResilientClient}
use logflux_go_sdk.Sdk.{
  Sdk, SendHooks, Moment, SdkError, with_client, run_typed_hook, unless_dropped, send_payload,
  record_breadcrumb, logged_breadcrumb, is_sampled_out, add_breadcrumb_with_level,
  clear_breadcrumbs,
}
use logflux_go_sdk.Sdk.Sending.{
  log_of, error_of, error_with_message_of, metric_of, event_of, audit_of, log,
  capture_error_with_attrs, capture_error_with_message, metric, event, audit,
}
use logflux_go_sdk.Sdk.Spans.{trace_of, send_span, end_span}
use logflux_go_sdk.Sdk.Scopes
use logflux_go_sdk.Sdk.Scopes.{with_scope_client}
use logflux_go_sdk.Sdk.Calls.{
  Call, log_call, capture_call, message_call, metric_call, event_call, audit_call, breadcrumb_call,
  clear_call, span_end, scope_log, scope_capture, scope_event, perform,
}
use logflux_go_sdk.Payload.{Scope}
use logflux_go_sdk.Tracing.{Span}

-- The entry type under which a payload belongs.
abbrev pub type_of : Payload → ℤ
type_of (log_payload p) = entry_type_log
type_of (error_payload p) = entry_type_log
type_of (metric_payload p) = entry_type_metric
type_of (trace_payload p) = entry_type_trace
type_of (event_payload p) = entry_type_event
type_of (audit_payload p) = entry_type_audit
type_of (telemetry_payload p) = entry_type_telemetry

-- Only a metric can hold a number that JSON has not.
abbrev pub writable : SendHooks → Call → Bool
writable hooks (metric_call name value kind attrs) = is_finite value && is_none hooks.on_metric
writable hooks _ = true

left_true : (a b : Bool) → (a && b) ≡ true → a ≡ true
left_true true b h = refl
left_true false b h = h

abbrev amount_of : Option Metric → Float64
amount_of none = 0
amount_of (some p) = p.amount

module _ (render : List (Str × Value) → Str) where
  pub data Outcome (m : Moment) (s : Sdk) (clean : Bool) (r : Sdk × Option SdkError) : Type 0 where
    idle :
        (b : Option BreadcrumbRing) → r ≡ (record s { breadcrumbs = b }, none) → Outcome m s clean r
    offered :
        (c : ResilientClient) (b : Option BreadcrumbRing) (p : Payload) (level : ℤ)
        → s.client ≡ some c
        → (clean ≡ true → has_finite_values p ≡ true)
        → r ≡ send_payload render m (record s { breadcrumbs = b }) c p level (type_of p)
        → Outcome m s clean r

  still : (m : Moment) (s : Sdk) (clean : Bool) → Outcome m s clean (s, none)
  still m s clean = idle s.breadcrumbs refl

  with_client-Outcome :
      (m : Moment) (s : Sdk) (clean : Bool) (o : Option ResilientClient)
      (send : ResilientClient → Sdk × Option SdkError)
      → ((c : ResilientClient) → o ≡ some c → Outcome m s clean (send c))
      → Outcome m s clean (with_client s o send)
  with_client-Outcome m s clean none send f = still m s clean
  with_client-Outcome m s clean (some c) send f = f c refl

  unless-Outcome :
      {A : Type 0} (m : Moment) (s : Sdk) (clean : Bool) (o : Option A)
      (send : A → Sdk × Option SdkError)
      → ((p : A) → o ≡ some p → Outcome m s clean (send p))
      → Outcome m s clean (unless_dropped s o send)
  unless-Outcome m s clean none send f = still m s clean
  unless-Outcome m s clean (some p) send f = f p refl

  if-Outcome :
      (m : Moment) (s : Sdk) (clean out : Bool) (r : Sdk × Option SdkError)
      → Outcome m s clean r
      → Outcome m s clean (if out then (s, none) else r)
  if-Outcome m s clean true r f = still m s clean
  if-Outcome m s clean false r f = f

  sending-Outcome :
      {A : Type 0} (m : Moment) (s : Sdk) (clean out : Bool) (hook : Option (A → Option A)) (x : A)
      (b : Option BreadcrumbRing) (wrap : A → Payload) (level entry_type : ℤ)
      → ((p : A) → type_of (wrap p) ≡ entry_type)
      → ((p : A)
          → run_typed_hook hook x ≡ some p
          → clean ≡ true
          → has_finite_values (wrap p) ≡ true)
      → Outcome m s clean (
          with_client s s.client (λ c.
            if out
            then (s, none)
            else (unless_dropped s (run_typed_hook hook x) (λ p.
                send_payload render m (record s { breadcrumbs = b }) c (wrap p) level entry_type))))
  sending-Outcome m s clean out hook x b wrap level entry_type fits finite =
      with_client-Outcome m s clean s.client _ (λ c h. if-Outcome m s clean out _ (
        unless-Outcome m s clean (run_typed_hook hook x)
          (λ p. send_payload render m (record s { breadcrumbs = b }) c (wrap p) level entry_type)
          (λ p k. offered c b (wrap p) level h (finite p k) (
            ap (send_payload render m (record s { breadcrumbs = b }) c (wrap p) level)
              (sym (fits p))))))

  metric-Outcome :
      (m : Moment) (s : Sdk) (name : Str) (value : Float64) (kind : Str) (attrs : Labels)
      → Outcome m s
          (is_finite value && is_none s.hooks.on_metric)
          (metric render m s name value kind attrs)
  unfolding metric has_finite_values metric_of new_gauge
  metric-Outcome m s name value kind attrs =
      sending-Outcome m s (is_finite value && is_none s.hooks.on_metric)
        (is_sampled_out m s.sampler) s.hooks.on_metric (metric_of m s name value kind attrs)
        s.breadcrumbs metric_payload (pos 7) entry_type_metric (λ p. refl)
        (unhooked s.hooks.on_metric)
    where
      unhooked :
          (hook : Option (Metric → Option Metric)) (p : Metric)
          → run_typed_hook hook (metric_of m s name value kind attrs) ≡ some p
          → (is_finite value && is_none hook) ≡ true
          → has_finite_values (metric_payload p) ≡ true
      unhooked none p h e = ap is_finite (sym (ap amount_of h)) ∙ left_true (is_finite value) true e
      unhooked (some hook) p h e = ground arith

  -- A scope's calls send at once.
  scope-Outcome :
      (m : Moment) (s : Sdk) (scope : Scope) (o : Option ResilientClient)
      (send : ResilientClient → Scope × (Sdk × Option SdkError))
      → ((c : ResilientClient) → o ≡ some c → Outcome m s true (send c).1)
      → Outcome m s true (with_scope_client scope s o send).1
  scope-Outcome m s scope none send f = still m s true
  scope-Outcome m s scope (some c) send f = f c refl

  span-Outcome :
      (format : Time → Str) (m : Moment) (s : Sdk) (span : Span) (end_time : Time)
      → Outcome m s true (end_span render format m s span end_time).1
  unfolding end_span send_span has_finite_values
  span-Outcome format m s span end_time = elim (Bool-cases span.ended) [
    | inl ended ↦ rw ended (still m s true)
    | inr going ↦ rw going (
        sending-Outcome m s true false s.hooks.on_trace (trace_of render format m s span end_time)
          s.breadcrumbs trace_payload (pos 7) entry_type_trace (λ p. refl) (λ p h e. refl))
  ]

  -- Whatever a call is, it leaves the client alone, or offers it one payload under its entry type; and
  -- what it offers can be written as JSON, unless the call brings a metric that cannot.
  pub perform-Outcome :
      (format : Time → Str) (m : Moment) (s : Sdk) (call : Call)
      → Outcome m s (writable s.hooks call) (perform render format m s call)
  unfolding perform has_finite_values log capture_error_with_attrs capture_error_with_message event
      audit Scopes.log Scopes.capture_error Scopes.event clear_breadcrumbs add_breadcrumb_with_level
  perform-Outcome format m s (log_call level message attrs) =
      sending-Outcome m s true (is_sampled_out m s.sampler) s.hooks.on_log
        (log_of m s level message attrs) (logged_breadcrumb m s.breadcrumbs level message)
        log_payload level entry_type_log (λ p. refl) (λ p h e. refl)
  perform-Outcome format m s (capture_call none attrs) = still m s true
  perform-Outcome format m s (capture_call (some e) attrs) =
      sending-Outcome m s true (is_sampled_out m s.sampler) s.hooks.on_error (error_of m s e attrs)
        s.breadcrumbs error_payload (pos 4) entry_type_log (λ p. refl) (λ p h e. refl)
  perform-Outcome format m s (message_call none message attrs) = still m s true
  perform-Outcome format m s (message_call (some e) message attrs) =
      sending-Outcome m s true (is_sampled_out m s.sampler) s.hooks.on_error
        (error_with_message_of m s e message attrs) s.breadcrumbs error_payload (pos 4)
        entry_type_log (λ p. refl) (λ p h e. refl)
  perform-Outcome format m s (metric_call name value kind attrs) =
      metric-Outcome m s name value kind attrs
  perform-Outcome format m s (event_call name attrs) =
      sending-Outcome m s true (is_sampled_out m s.sampler) s.hooks.on_event
        (event_of m s name attrs)
        (record_breadcrumb m s.breadcrumbs (codes "event") name (codes "") attrs) event_payload
        (pos 7) entry_type_event (λ p. refl) (λ p h e. refl)
  perform-Outcome format m s (audit_call action actor resource id attrs) =
      sending-Outcome m s true false s.hooks.on_audit (audit_of m s action actor resource id attrs)
        s.breadcrumbs audit_payload (pos 6) entry_type_audit (λ p. refl) (λ p h e. refl)
  perform-Outcome format m s (breadcrumb_call category message level attached) = idle _ refl
  perform-Outcome format m s clear_call = idle _ refl
  perform-Outcome format m s (span_end span end_time) = span-Outcome format m s span end_time
  perform-Outcome format m s (scope_log scope level message) =
      scope-Outcome m s scope s.client _ (λ c h. offered c s.breadcrumbs _ level h (λ e. refl) refl)
  perform-Outcome format m s (scope_capture scope none) = still m s true
  perform-Outcome format m s (scope_capture scope (some e)) =
      scope-Outcome m s scope s.client _
        (λ c h. offered c s.breadcrumbs _ (pos 4) h (λ e. refl) refl)
  perform-Outcome format m s (scope_event scope name attrs) =
      scope-Outcome m s scope s.client _
        (λ c h. offered c s.breadcrumbs _ (pos 7) h (λ e. refl) refl)
