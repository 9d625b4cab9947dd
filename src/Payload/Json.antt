-- ===== src/Payload/Json.antt =====
-- pkg/payload/payload.go, errors.go and breadcrumb.go: the JSON object that a payload's struct tags
-- describe, and `Marshal`. The text of an object is Go's encoding/json: the parameter `render`.
pub mod Keys
use logflux_go_sdk.Prelude.{
  ℤ, pos, eqb_ℤ, ◌||◌, ◌^◌, Bool, true, false, not, ◌&&◌, List, [], ◌∷◌, ◌++◌, Option, none, some,
  map, if◌then◌else◌, ◌==◌, Str, codes, length, Except, ok, err,
}
use logflux_go_sdk.Models.{Labels}
use logflux_go_sdk.Breadcrumbs.{Breadcrumb}
use logflux_go_sdk.Payload.{Common, Fields}
use logflux_go_sdk.Payload.Float.{Float64, is_finite}
use logflux_go_sdk.Payload.Kinds.{Log, Metric, Trace, Event, Audit, Reading, Telemetry}
use logflux_go_sdk.Payload.Errors.{ErrorPayload, ChainedError, StackFrame}

-- What is passed to `Marshal`.
pub data Payload : Type 0 where
  log_payload : Log → Payload
  error_payload : ErrorPayload → Payload
  metric_payload : Metric → Payload
  trace_payload : Trace → Payload
  event_payload : Event → Payload
  audit_payload : Audit → Payload
  telemetry_payload : Telemetry → Payload

-- A value without objects in it; a map of strings counts as one.
pub data Flat : Type 0 where
  text : Str → Flat
  int : ℤ → Flat
  float : Float64 → Flat
  texts : Fields → Flat

pub data Value : Type 0 where
  flat : Flat → Value
  objects : List (List (Str × Flat)) → Value

-- A field of a struct: its key, and whether its tag says `omitempty`.
pub record Row (A : Type 0) : Type 0 where
  pub key : Str
  pub omitempty : Bool
  pub value : A

abbrev pub is_empty_flat : Flat → Bool
is_empty_flat (text s) = length s == 0
is_empty_flat (int n) = eqb_ℤ n (pos 0)
is_empty_flat (float x) = x == 0 || x == 2 ^ 63
is_empty_flat (texts m) = length m == 0

abbrev pub is_empty_value : Value → Bool
is_empty_value (flat v) = is_empty_flat v
is_empty_value (objects vs) = length vs == 0

-- The fields that are written.
unfoldable pub present : {A : Type 0} → (A → Bool) → List (Row A) → List (Str × A)
present is_empty [] = []
present is_empty (row ∷ rows) =
    let rest = present is_empty rows in
    if row.omitempty && is_empty row.value then rest else (row.key, row.value) ∷ rest

abbrev pub always : {A : Type 0} → Str → A → Row A
always key value = record { key = key; omitempty = false; value = value }

abbrev pub optional : {A : Type 0} → Str → A → Row A
optional key value = record { key = key; omitempty = true; value = value }

abbrev pub string : Str → Value
string s = flat (text s)

abbrev pub pairs_of : Labels → Fields
pairs_of none = []
pairs_of (some m) = m

unfoldable pub common_rows : Common → List (Row Value)
common_rows c =
    always (codes "v") (string c.version)
    ∷ always (codes "type") (string c.type_name)
    ∷ always (codes "source") (string c.source)
    ∷ optional (codes "level") (flat (int c.level))
    ∷ optional (codes "ts") (string c.ts)
    ∷ optional (codes "attributes") (flat (texts (pairs_of c.attributes)))
    ∷ optional (codes "meta") (flat (texts (pairs_of c.metadata)))
    ∷ []

unfoldable pub reading_object : Reading → List (Str × Flat)
unfolding present
reading_object r = present is_empty_flat (
    always (codes "name") (text r.name)
    ∷ always (codes "value") (float r.amount)
    ∷ optional (codes "unit") (text r.unit)
    ∷ [])

unfoldable pub chained_object : ChainedError → List (Str × Flat)
chained_object e = (codes "type", text e.kind) ∷ (codes "message", text e.message) ∷ []

unfoldable pub frame_object : StackFrame → List (Str × Flat)
frame_object f =
    (codes "function", text f.function)
    ∷ (codes "file", text f.file)
    ∷ (codes "line", int (pos f.line))
    ∷ []

unfoldable pub breadcrumb_object : Breadcrumb → List (Str × Flat)
unfolding present
breadcrumb_object b = present is_empty_flat (
    always (codes "timestamp") (text b.timestamp)
    ∷ optional (codes "category") (text b.category)
    ∷ always (codes "message") (text b.message)
    ∷ optional (codes "level") (text b.level)
    ∷ optional (codes "data") (texts (pairs_of b.attached))
    ∷ [])

abbrev pub common_of : Payload → Common
common_of (log_payload p) = p.common
common_of (error_payload p) = p.common
common_of (metric_payload p) = p.common
common_of (trace_payload p) = p.common
common_of (event_payload p) = p.common
common_of (audit_payload p) = p.common
common_of (telemetry_payload p) = p.common

-- The fields that a payload has beside the common ones.
unfoldable pub own_rows : Payload → List (Row Value)
unfolding reading_object chained_object frame_object breadcrumb_object
own_rows (log_payload p) =
    always (codes "message") (string p.message) ∷ optional (codes "logger") (string p.logger) ∷ []
own_rows (error_payload p) =
    always (codes "message") (string p.message)
    ∷ optional (codes "logger") (string p.logger)
    ∷ optional (codes "error_type") (string p.error_type)
    ∷ optional (codes "error_chain") (objects (map chained_object p.error_chain))
    ∷ optional (codes "stack_trace") (objects (map frame_object p.stack_trace))
    ∷ optional (codes "breadcrumbs") (objects (map breadcrumb_object p.breadcrumbs))
    ∷ []
own_rows (metric_payload p) =
    always (codes "name") (string p.name)
    ∷ always (codes "value") (flat (float p.amount))
    ∷ optional (codes "unit") (string p.unit)
    ∷ optional (codes "kind") (string p.kind)
    ∷ []
own_rows (trace_payload p) =
    always (codes "trace_id") (string p.trace_id)
    ∷ always (codes "span_id") (string p.span_id)
    ∷ optional (codes "parent_span_id") (string p.parent_span_id)
    ∷ always (codes "operation") (string p.operation)
    ∷ always (codes "name") (string p.name)
    ∷ always (codes "start_time") (string p.start_time)
    ∷ always (codes "end_time") (string p.end_time)
    ∷ optional (codes "duration_ms") (flat (int p.duration_ms))
    ∷ optional (codes "status") (string p.status)
    ∷ []
own_rows (event_payload p) = always (codes "event") (string p.event_name) ∷ []
own_rows (audit_payload p) =
    always (codes "action") (string p.action)
    ∷ always (codes "actor") (string p.actor)
    ∷ optional (codes "actor_type") (string p.actor_type)
    ∷ always (codes "resource") (string p.resource)
    ∷ always (codes "resource_id") (string p.resource_id)
    ∷ optional (codes "outcome") (string p.outcome)
    ∷ []
own_rows (telemetry_payload p) =
    always (codes "device_id") (string p.device_id)
    ∷ always (codes "readings") (objects (map reading_object p.readings))
    ∷ []

unfoldable pub json_object : Payload → List (Str × Value)
unfolding present common_rows own_rows
json_object p = present is_empty_value (common_rows (common_of p) ++ own_rows p)

unfoldable pub all_finite : List Reading → Bool
all_finite [] = true
all_finite (r ∷ rs) = is_finite r.amount && all_finite rs

-- Go refuses to write a float that is a NaN or infinite.
unfoldable pub has_finite_values : Payload → Bool
unfolding all_finite
has_finite_values (metric_payload p) = is_finite p.amount
has_finite_values (telemetry_payload p) = all_finite p.readings
has_finite_values _ = true

pub data MarshalError : Type 0 where
  unsupported_value : MarshalError

unfoldable pub marshal : (List (Str × Value) → Str) → Payload → Except MarshalError Str
unfolding json_object has_finite_values
marshal render p =
    if has_finite_values p then ok (render (json_object p)) else err unsupported_value
