-- ===== src/Sdk/Scopes.antt =====
-- scope.go: the send methods of a scope, which return the scope too, since they add to its breadcrumbs.
-- They ask neither the sampler nor the `BeforeSend` callbacks of the package.
use logflux_go_sdk.Prelude.{ℤ, leb_ℤ, List, Option, none, some, if◌then◌else◌, Str, codes}
use logflux_go_sdk.Models.{
  Labels, log_level_error, log_level_info, entry_type_log, entry_type_event,
}
use logflux_go_sdk.Breadcrumbs.{add}
use logflux_go_sdk.Payload.{Common, Scope, apply_context, apply_scope}
use logflux_go_sdk.Payload.Kinds.{new_log, new_event}
use logflux_go_sdk.Payload.Errors.{ErrorValue, new_error_payload, with_breadcrumbs}
use logflux_go_sdk.Payload.Json.{Value, log_payload, error_payload, event_payload}
use logflux_go_sdk.Client.Resilient.State.{ResilientClient}
use logflux_go_sdk.Sdk.{Sdk, Moment, SdkError, level_string, send_payload}
use logflux_go_sdk.Sdk.Sending.{merge_attributes}

-- A method returns nil at once without a client.
abbrev pub with_scope_client :
    Scope
    → Sdk
    → Option ResilientClient
    → (ResilientClient → Scope × (Sdk × Option SdkError))
    → Scope × (Sdk × Option SdkError)
with_scope_client scope s none send = (scope, (s, none))
with_scope_client scope s (some c) send = send c

unfoldable pub scope_breadcrumb : Moment → Scope → Str → Str → Str → Labels → Scope
scope_breadcrumb m scope category message level attached = record scope {
  breadcrumbs = add m.ts scope.breadcrumbs (record {
    timestamp = codes "";
    category = category;
    message = message;
    level = level;
    attached = attached;
  });
}

unfoldable pub in_scope : Sdk → Scope → Common → Common
in_scope s scope c = apply_scope scope (apply_context s.context c)

module _ (render : List (Str × Value) → Str) where
  unfoldable pub log : Moment → Sdk → Scope → ℤ → Str → Scope × (Sdk × Option SdkError)
  unfolding in_scope scope_breadcrumb
  log m s scope level message = with_scope_client scope s s.client (λ c.
      let new = new_log m.ts (codes "") message level in
      let p = record new { common = in_scope s scope new.common } in
      let crumbed = scope_breadcrumb m scope (codes "log") message (level_string level) none in
      (
        if leb_ℤ level log_level_info then crumbed else scope,
        send_payload render m s c (log_payload p) level entry_type_log,
      ))

  unfoldable pub capture_error :
      Moment → Sdk → Scope → Option ErrorValue → Scope × (Sdk × Option SdkError)
  unfolding in_scope
  capture_error m s scope none = (scope, (s, none))
  capture_error m s scope (some e) = with_scope_client scope s s.client (λ c.
      let new = new_error_payload m.ts m.frames (codes "") e in
      let p =
        with_breadcrumbs (record new { common = in_scope s scope new.common }) scope.breadcrumbs in
      (scope, send_payload render m s c (error_payload p) log_level_error entry_type_log))

  unfoldable pub event : Moment → Sdk → Scope → Str → Labels → Scope × (Sdk × Option SdkError)
  unfolding in_scope scope_breadcrumb
  event m s scope name attrs = with_scope_client scope s s.client (λ c.
      let new = new_event m.ts (codes "") name in
      let p = record new { common = merge_attributes (in_scope s scope new.common) attrs } in
      (
        scope_breadcrumb m scope (codes "event") name (codes "") attrs,
        send_payload render m s c (event_payload p) log_level_info entry_type_event,
      ))
