-- ===== src/Sdk.antt =====
-- logflux.go: the package's global state and what its send functions share. The lock is held only to
-- read or to set a variable; a function that is called is one step.
pub mod Sending
pub mod Spans
pub mod Scopes
pub mod Levels
pub mod Calls
pub mod Init
pub mod Middleware
mod Tests
use logflux_go_sdk.Prelude.{
  ℤ, pos, leb_ℤ, eqb_ℤ, Bool, true, false, not, List, Option, none, some, if◌then◌else◌, Str, codes,
  Except, ok, err,
}
use logflux_go_sdk.Models.{
  Labels, log_level_critical, log_level_error, log_level_warning, log_level_info,
}
use logflux_go_sdk.Breadcrumbs.{BreadcrumbRing, add}
use logflux_go_sdk.Breadcrumbs
use logflux_go_sdk.Payload.{Common, GlobalContext}
use logflux_go_sdk.Payload.Float.{Float64}
use logflux_go_sdk.Payload.Kinds.{Log, Metric, Trace, Event, Audit, Telemetry, set_attributes}
use logflux_go_sdk.Payload.Errors.{ErrorPayload, StackFrame}
use logflux_go_sdk.Payload.Json.{Payload, Value, MarshalError, marshal}
use logflux_go_sdk.Payload.Sampler.{Sampler, should_sample}
use logflux_go_sdk.Client.Resilient.State.{ResilientClient, SendError}
use logflux_go_sdk.Client.Resilient.Enqueue.{Draws, send_log_with_entry_type}

-- The `BeforeSend` callbacks by type, each a pure function; nil is none.
pub record SendHooks : Type 0 where
  pub on_log : Option (Log → Option Log)
  pub on_error : Option (ErrorPayload → Option ErrorPayload)
  pub on_metric : Option (Metric → Option Metric)
  pub on_event : Option (Event → Option Event)
  pub on_audit : Option (Audit → Option Audit)
  pub on_trace : Option (Trace → Option Trace)
  pub on_telemetry : Option (Telemetry → Option Telemetry)

-- The package's variables, and the global context of pkg/payload.
pub record Sdk : Type 0 where
  pub client : Option ResilientClient
  pub breadcrumbs : Option BreadcrumbRing
  pub hooks : SendHooks
  pub sampler : Option Sampler
  pub context : GlobalContext

-- What one call draws from outside: the client's draws, the text of the current time, the number for
-- the sampler, and the frames of the caller's stack.
pub record Moment : Type 0 where
  pub draws : Draws
  pub ts : Str
  pub sample : Float64
  pub frames : List StackFrame

pub data SdkError : Type 0 where
  unmarshalled : MarshalError → SdkError
  unsent : SendError → SdkError

-- `c == nil` returns nil.
abbrev pub with_client :
    Sdk → Option ResilientClient → (ResilientClient → Sdk × Option SdkError) → Sdk × Option SdkError
with_client s none send = (s, none)
with_client s (some c) send = send c

unfoldable pub is_sampled_out : Moment → Option Sampler → Bool
unfolding should_sample
is_sampled_out m none = false
is_sampled_out m (some s) = not (should_sample s m.sample)

abbrev pub run_typed_hook : {A : Type 0} → Option (A → Option A) → A → Option A
run_typed_hook none p = some p
run_typed_hook (some hook) p = hook p

-- `p == nil` after the hook returns nil.
abbrev pub unless_dropped :
    {A : Type 0} → Sdk → Option A → (A → Sdk × Option SdkError) → Sdk × Option SdkError
unless_dropped s none send = (s, none)
unless_dropped s (some p) send = send p

-- `if attrs != nil`
abbrev pub given_attributes : Common → Labels → Common
given_attributes c none = c
given_attributes c (some attrs) = set_attributes c (some attrs)

abbrev pub sent : Sdk → ResilientClient × Option SendError → Sdk × Option SdkError
sent s (c, none) = (record s { client = some c }, none)
sent s (c, some e) = (record s { client = some c }, some (unsent e))

-- What every send function does last, with the text of the payload or the error of `Marshal`.
unfoldable pub send_text :
    Moment → Sdk → ResilientClient → Except MarshalError Str → ℤ → ℤ → Sdk × Option SdkError
send_text m s c (err e) level entry_type = (s, some (unmarshalled e))
send_text m s c (ok text) level entry_type =
    sent s (send_log_with_entry_type m.draws c text level entry_type)

unfoldable pub send_payload :
    (List (Str × Value) → Str)
    → Moment
    → Sdk
    → ResilientClient
    → Payload
    → ℤ
    → ℤ
    → Sdk × Option SdkError
unfolding send_text
send_payload render m s c p level entry_type = send_text m s c (marshal render p) level entry_type

unfoldable pub level_string : ℤ → Str
level_string level =
    if leb_ℤ level log_level_critical
    then codes "error"
    else if eqb_ℤ level log_level_error
    then codes "error"
    else if eqb_ℤ level log_level_warning
    then codes "warning"
    else codes "info"

-- The breadcrumb of one of the package's functions, if there is a ring.
unfoldable pub record_breadcrumb :
    Moment → Option BreadcrumbRing → Str → Str → Str → Labels → Option BreadcrumbRing
record_breadcrumb m none category message level attached = none
record_breadcrumb m (some ring) category message level attached = some (
    add m.ts ring (record {
      timestamp = codes "";
      category = category;
      message = message;
      level = level;
      attached = attached;
    }))

unfoldable pub add_breadcrumb : Moment → Sdk → Str → Str → Labels → Sdk
unfolding record_breadcrumb
add_breadcrumb m s category message attached = record s {
  breadcrumbs = record_breadcrumb m s.breadcrumbs category message (codes "") attached;
}

unfoldable pub add_breadcrumb_with_level : Moment → Sdk → Str → Str → Str → Labels → Sdk
unfolding record_breadcrumb
add_breadcrumb_with_level m s category message level attached = record s {
  breadcrumbs = record_breadcrumb m s.breadcrumbs category message level attached;
}

abbrev pub cleared : Option BreadcrumbRing → Option BreadcrumbRing
cleared none = none
cleared (some ring) = some (Breadcrumbs.clear ring)

unfoldable pub clear_breadcrumbs : Sdk → Sdk
clear_breadcrumbs s = record s { breadcrumbs = cleared s.breadcrumbs }

unfoldable pub add_log_breadcrumb : Moment → Option BreadcrumbRing → ℤ → Str → Option BreadcrumbRing
unfolding record_breadcrumb level_string
add_log_breadcrumb m ring level message =
    record_breadcrumb m ring (codes "log") message (level_string level) none

-- The breadcrumb that `Log` leaves of what is not a debug message.
unfoldable pub logged_breadcrumb : Moment → Option BreadcrumbRing → ℤ → Str → Option BreadcrumbRing
unfolding add_log_breadcrumb
logged_breadcrumb m ring level message =
    if leb_ℤ level log_level_info then add_log_breadcrumb m ring level message else ring
