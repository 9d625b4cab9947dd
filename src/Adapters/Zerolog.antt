-- ===== src/Adapters/Zerolog.antt =====
-- pkg/adapters/zerolog.go: a logger and its events. A level is Go's int8; a map of fields is the list of
-- its keys and values, in the order in which a `range` visits them. An event points to its logger, whose
-- fields are never changed: every method that adds one copies the logger.
pub mod Chain
mod Tests
use logflux_go_sdk.Prelude.{
  ℕ, ℤ, pos, negsuc, eqb_ℤ, ltb_ℤ, Bool, true, false, not, ◌||◌, List, [], ◌∷◌, ◌++◌, Option, none,
  some, map, if◌then◌else◌, ◌==◌, length, Str, codes, str_eq, join,
}
use logflux_go_sdk.Models.{
  Time, log_level_critical, log_level_error, log_level_warning, log_level_info,
}
use logflux_go_sdk.Payload.{assign, assign_all}
use logflux_go_sdk.Payload.Float.{Float64}
use logflux_go_sdk.Retry.Errors.{int_text}
use logflux_go_sdk.Tracing.{hex_text}
use logflux_go_sdk.Adapters.{
  Sent, FieldValue, string_value, bytes_value, other_value, signed_value, unsigned_value,
  float_value, bool_value, time_value, duration_value, FieldMap, Texts,
}

abbrev pub zerolog_trace_level : ℤ
zerolog_trace_level = negsuc 0

abbrev pub zerolog_debug_level : ℤ
zerolog_debug_level = pos 0

abbrev pub zerolog_info_level : ℤ
zerolog_info_level = pos 1

abbrev pub zerolog_warn_level : ℤ
zerolog_warn_level = pos 2

abbrev pub zerolog_error_level : ℤ
zerolog_error_level = pos 3

abbrev pub zerolog_fatal_level : ℤ
zerolog_fatal_level = pos 4

abbrev pub zerolog_panic_level : ℤ
zerolog_panic_level = pos 5

abbrev pub zerolog_no_level : ℤ
zerolog_no_level = pos 6

abbrev pub zerolog_disabled : ℤ
zerolog_disabled = pos 7

-- The calls that set a field, by method: those of a logger, and, but for `Errs`, those of an event. An
-- error is its text, or none for nil; `timestamp` has what the clock says.
pub data Setting : Type 0 where
  str : Str → Str → Setting
  strs : Str → List Str → Setting
  int int64 : Str → ℤ → Setting
  uint uint64 : Str → ℕ → Setting
  float32 float64 : Str → Float64 → Setting
  bool : Str → Bool → Setting
  instant : Str → Time → Setting
  dur : Str → ℤ → Setting
  bytes hex : Str → Str → Setting
  interface : Str → FieldValue → Setting
  err : Option Str → Setting
  an_err : Str → Option Str → Setting
  errs : Str → List Str → Setting
  timestamp : Time → Setting
  stack caller : Setting

abbrev error_field : Str → Option Str → Option (Str × FieldValue)
error_field key none = none
error_field key (some message) = some (key, string_value message)

-- The field that a call sets, if it sets one.
unfoldable pub field_of : Setting → Option (Str × FieldValue)
field_of (str key val) = some (key, string_value val)
field_of (strs key vals) = some (key, string_value (join (codes ",") vals))
field_of (int key val) = some (key, signed_value val)
field_of (int64 key val) = some (key, signed_value val)
field_of (uint key val) = some (key, unsigned_value val)
field_of (uint64 key val) = some (key, unsigned_value val)
field_of (float32 key val) = some (key, float_value val)
field_of (float64 key val) = some (key, float_value val)
field_of (bool key val) = some (key, bool_value val)
field_of (instant key val) = some (key, time_value val)
field_of (dur key val) = some (key, duration_value val)
field_of (bytes key val) = some (key, bytes_value val)
field_of (hex key val) = some (key, string_value (hex_text val))
field_of (interface key val) = some (key, val)
field_of (err e) = error_field (codes "error") e
field_of (an_err key e) = error_field key e
field_of (errs key []) = none
field_of (errs key (e ∷ es)) = some (key, string_value (join (codes ",") (e ∷ es)))
field_of (timestamp now) = some (codes "timestamp", time_value now)
field_of stack = some (codes "stack", string_value (codes "stack_trace_placeholder"))
field_of caller = some (codes "caller", string_value (codes "caller_placeholder"))

abbrev set_field : Option (Str × FieldValue) → FieldMap → FieldMap
set_field none m = m
set_field (some (k, v)) m = assign k v m

-- The logger without its client.
pub record ZerologLogger : Type 0 where
  pub level : ℤ
  pub fields : FieldMap

pub record ZerologEvent : Type 0 where
  pub logger : ZerologLogger
  pub level : ℤ
  pub fields : FieldMap

unfoldable pub new_zerolog_logger : ZerologLogger
new_zerolog_logger = record { level = zerolog_info_level; fields = [] }

unfoldable pub map_zerolog_level : ℤ → ℤ
map_zerolog_level level =
    if eqb_ℤ level zerolog_trace_level || eqb_ℤ level zerolog_debug_level
    then pos 8
    else if eqb_ℤ level zerolog_info_level
    then log_level_info
    else if eqb_ℤ level zerolog_warn_level
    then log_level_warning
    else if eqb_ℤ level zerolog_error_level
    then log_level_error
    else if eqb_ℤ level zerolog_fatal_level || eqb_ℤ level zerolog_panic_level
    then log_level_critical
    else log_level_info

unfoldable pub format_zerolog_value : Texts → FieldValue → Str
format_zerolog_value t (string_value s) = s
format_zerolog_value t (bytes_value s) = s
format_zerolog_value t (other_value s) = s
format_zerolog_value t (signed_value n) = int_text n
format_zerolog_value t (unsigned_value n) = int_text (pos n)
format_zerolog_value t (float_value x) = t.float_text x
format_zerolog_value t (bool_value b) = if b then codes "true" else codes "false"
format_zerolog_value t (time_value x) = t.time_text x
format_zerolog_value t (duration_value d) = t.duration_text d

abbrev pub field_text : Texts → Str × FieldValue → Str
field_text t (key, value) = key ++ (codes "=" ++ format_zerolog_value t value)

unfoldable pub format_zerolog_message : Texts → Str → FieldMap → Str
unfolding format_zerolog_value
format_zerolog_message t message fields =
    if length fields == 0
    then message
    else (let parts = join (codes " ") (map (field_text t) fields) in
        if not (str_eq message []) then message ++ (codes " " ++ parts) else parts)

-- `Level`: a copy with another level.
unfoldable pub with_level : ZerologLogger → ℤ → ZerologLogger
with_level l level = record l { level = level }

-- The methods that add a field to a copy of the logger; nil errors leave the logger as it is.
unfoldable pub logger_set : ZerologLogger → Setting → ZerologLogger
unfolding field_of
logger_set l s = record l { fields = set_field (field_of s) l.fields }

-- What `Trace` to `Panic` do, each with its level.
unfoldable pub event_at : ZerologLogger → ℤ → ZerologEvent
event_at l level = record {
  logger = l;
  level = if ltb_ℤ level l.level then zerolog_disabled else level;
  fields = [];
}

-- `Log` asks no level.
unfoldable pub log : ZerologLogger → ZerologEvent
log l = record { logger = l; level = zerolog_no_level; fields = [] }

-- The methods that begin an event.
pub data Opening : Type 0 where
  by_trace by_debug by_info by_warn by_error by_fatal by_panic by_log : Opening

unfoldable pub open_event : ZerologLogger → Opening → ZerologEvent
unfolding event_at log
open_event l by_trace = event_at l zerolog_trace_level
open_event l by_debug = event_at l zerolog_debug_level
open_event l by_info = event_at l zerolog_info_level
open_event l by_warn = event_at l zerolog_warn_level
open_event l by_error = event_at l zerolog_error_level
open_event l by_fatal = event_at l zerolog_fatal_level
open_event l by_panic = event_at l zerolog_panic_level
open_event l by_log = log l

abbrev pub is_disabled : ZerologEvent → Bool
is_disabled e = eqb_ℤ e.level zerolog_disabled

-- The methods that add a field to an event.
unfoldable pub event_set : ZerologEvent → Setting → ZerologEvent
unfolding field_of
event_set e s = if is_disabled e then e else record e { fields = set_field (field_of s) e.fields }

unfoldable pub discard : ZerologEvent → ZerologEvent
discard e = record e { level = zerolog_disabled }

unfoldable pub enabled : ZerologEvent → Bool
enabled e = not (is_disabled e)

-- The fields of a message: those of the logger, and over them those of the event.
unfoldable pub all_fields : ZerologEvent → FieldMap
unfolding assign_all
all_fields e = assign_all (assign_all [] e.logger.fields) e.fields

module _ (t : Texts) where
  -- The call that `Msg` makes on the client, if any.
  unfoldable pub msg : ZerologEvent → Str → Option Sent
  unfolding format_zerolog_message map_zerolog_level all_fields
  msg e message =
      if is_disabled e
      then none
      else some (record {
        text = format_zerolog_message t message (all_fields e);
        level = map_zerolog_level e.level;
      })

  unfoldable pub send : ZerologEvent → Option Sent
  unfolding msg
  send e = if is_disabled e then none else msg e []

  -- `Print`, with the text that `fmt.Sprint` made.
  unfoldable pub print : ZerologLogger → Str → Sent
  unfolding format_zerolog_message
  print l message = record {
    text = format_zerolog_message t message l.fields;
    level = log_level_info;
  }
