-- ===== src/Sdk/Sending.antt =====
-- logflux.go: the send functions, Log to Audit. `render` is the text of a JSON object.
use logflux_go_sdk.Prelude.{
  ℤ, pos, List, [], ◌∷◌, Option, none, some, if◌then◌else◌, Str, codes, get_or_else,
}
use logflux_go_sdk.Models.{
  Labels, log_level_error, log_level_info, entry_type_log, entry_type_metric, entry_type_event,
  entry_type_audit,
}
use logflux_go_sdk.Payload.{Common, assign_all, apply_context}
use logflux_go_sdk.Payload.Float.{Float64}
use logflux_go_sdk.Payload.Kinds.{
  Log, Metric, Event, Audit, new_log, new_gauge, new_event, new_audit,
}
use logflux_go_sdk.Payload.Errors.{
  ErrorValue, ErrorPayload, new_error_payload, new_error_payload_with_message, with_breadcrumbs,
}
use logflux_go_sdk.Payload.Json.{
  Value, log_payload, error_payload, metric_payload, event_payload, audit_payload,
}
use logflux_go_sdk.Breadcrumbs.{BreadcrumbRing}
use logflux_go_sdk.Sdk.{
  Sdk, Moment, SdkError, with_client, is_sampled_out, run_typed_hook, unless_dropped,
  given_attributes, send_payload, record_breadcrumb, logged_breadcrumb,
}

-- The context and the caller's attributes.
unfoldable pub in_context : Sdk → Common → Labels → Common
in_context s c attrs = given_attributes (apply_context s.context c) attrs

-- The loop that sets the caller's attributes over those that are there.
unfoldable pub merge_attributes : Common → Labels → Common
merge_attributes c none = c
merge_attributes c (some []) = c
merge_attributes c (some (attr ∷ attrs)) = record c {
  attributes = some (assign_all (get_or_else c.attributes []) (attr ∷ attrs));
}

abbrev pub with_ring : ErrorPayload → Option BreadcrumbRing → ErrorPayload
with_ring p none = p
with_ring p (some ring) = with_breadcrumbs p ring

-- The payloads that the functions hand to their hooks.
unfoldable pub log_of : Moment → Sdk → ℤ → Str → Labels → Log
unfolding in_context
log_of m s level message attrs =
    let new = new_log m.ts (codes "") message level in
    record new { common = in_context s new.common attrs }

unfoldable pub error_of : Moment → Sdk → ErrorValue → Labels → ErrorPayload
unfolding in_context
error_of m s e attrs =
    let new = new_error_payload m.ts m.frames (codes "") e in
    with_ring (record new { common = in_context s new.common attrs }) s.breadcrumbs

unfoldable pub error_with_message_of : Moment → Sdk → ErrorValue → Str → Labels → ErrorPayload
unfolding merge_attributes
error_with_message_of m s e message attrs =
    let new = new_error_payload_with_message m.ts m.frames (codes "") e message in
    let common = merge_attributes (apply_context s.context new.common) attrs in
    with_ring (record new { common = common }) s.breadcrumbs

unfoldable pub metric_of : Moment → Sdk → Str → Float64 → Str → Labels → Metric
unfolding in_context
metric_of m s name value kind attrs =
    let new = new_gauge m.ts (codes "") name value (codes "") in
    record new { kind = kind; common = in_context s new.common attrs }

unfoldable pub event_of : Moment → Sdk → Str → Labels → Event
unfolding in_context
event_of m s name attrs =
    let new = new_event m.ts (codes "") name in
    record new { common = in_context s new.common attrs }

unfoldable pub audit_of : Moment → Sdk → Str → Str → Str → Str → Labels → Audit
unfolding in_context
audit_of m s action actor resource resource_id attrs =
    let new = new_audit m.ts (codes "") action actor resource resource_id in
    record new { common = in_context s new.common attrs }

module _ (render : List (Str × Value) → Str) where
  unfoldable pub log : Moment → Sdk → ℤ → Str → Labels → Sdk × Option SdkError
  unfolding log_of
  log m s level message attrs = with_client s s.client (λ c.
      if is_sampled_out m s.sampler
      then (s, none)
      else (unless_dropped s (run_typed_hook s.hooks.on_log (log_of m s level message attrs)) (λ p.
          let s' = record s { breadcrumbs = logged_breadcrumb m s.breadcrumbs level message } in
          send_payload render m s' c (log_payload p) level entry_type_log)))

  unfoldable pub capture_error_with_attrs :
      Moment → Sdk → Option ErrorValue → Labels → Sdk × Option SdkError
  unfolding error_of
  capture_error_with_attrs m s none attrs = (s, none)
  capture_error_with_attrs m s (some e) attrs = with_client s s.client (λ c.
      if is_sampled_out m s.sampler
      then (s, none)
      else (unless_dropped s (run_typed_hook s.hooks.on_error (error_of m s e attrs))
          (λ p. send_payload render m s c (error_payload p) log_level_error entry_type_log)))

  unfoldable pub capture_error : Moment → Sdk → Option ErrorValue → Sdk × Option SdkError
  unfolding capture_error_with_attrs
  capture_error m s e = capture_error_with_attrs m s e none

  unfoldable pub capture_error_with_message :
      Moment → Sdk → Option ErrorValue → Str → Labels → Sdk × Option SdkError
  unfolding error_with_message_of
  capture_error_with_message m s none message attrs = (s, none)
  capture_error_with_message m s (some e) message attrs = with_client s s.client (λ c.
      if is_sampled_out m s.sampler
      then (s, none)
      else (unless_dropped s
          (run_typed_hook s.hooks.on_error (error_with_message_of m s e message attrs))
          (λ p. send_payload render m s c (error_payload p) log_level_error entry_type_log)))

  unfoldable pub metric : Moment → Sdk → Str → Float64 → Str → Labels → Sdk × Option SdkError
  unfolding metric_of
  metric m s name value kind attrs = with_client s s.client (λ c.
      if is_sampled_out m s.sampler
      then (s, none)
      else (unless_dropped s
          (run_typed_hook s.hooks.on_metric (metric_of m s name value kind attrs))
          (λ p. send_payload render m s c (metric_payload p) log_level_info entry_type_metric)))

  unfoldable pub counter : Moment → Sdk → Str → Float64 → Labels → Sdk × Option SdkError
  unfolding metric
  counter m s name value attrs = metric m s name value (codes "counter") attrs

  unfoldable pub gauge : Moment → Sdk → Str → Float64 → Labels → Sdk × Option SdkError
  unfolding metric
  gauge m s name value attrs = metric m s name value (codes "gauge") attrs

  unfoldable pub event : Moment → Sdk → Str → Labels → Sdk × Option SdkError
  unfolding event_of
  event m s name attrs = with_client s s.client (λ c.
      if is_sampled_out m s.sampler
      then (s, none)
      else (unless_dropped s (run_typed_hook s.hooks.on_event (event_of m s name attrs)) (λ p.
          let ring = record_breadcrumb m s.breadcrumbs (codes "event") name (codes "") attrs in
          send_payload render m (record s { breadcrumbs = ring }) c (event_payload p) log_level_info
            entry_type_event)))

  -- No sampler is asked.
  unfoldable pub audit : Moment → Sdk → Str → Str → Str → Str → Labels → Sdk × Option SdkError
  unfolding audit_of
  audit m s action actor resource resource_id attrs = with_client s s.client (λ c.
      unless_dropped s
        (run_typed_hook s.hooks.on_audit (audit_of m s action actor resource resource_id attrs))
        (λ p. send_payload render m s c (audit_payload p) (pos 6) entry_type_audit))
