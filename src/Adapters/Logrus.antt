-- ===== src/Adapters/Logrus.antt =====
-- pkg/adapters/logrus.go: a logger and its entries. What `fmt.Sprint` and its kin made of their arguments
-- is the text that the operations take. The map of fields is the list of its keys and values, in the order
-- in which a `range` visits them. `WithFields` of a logger keeps the map that it is given: what the entry
-- then writes to `Data` it writes to the caller's map.
mod Tests
use logflux_go_sdk.Prelude.{
  ℕ, ℤ, pos, Bool, true, false, not, ◌||◌, List, [], ◌∷◌, ◌++◌, Option, none, some, map,
  if◌then◌else◌, leb, ◌==◌, length, Str, codes, str_eq, join,
}
use logflux_go_sdk.Models.{
  Time, log_level_critical, log_level_error, log_level_warning, log_level_info,
}
use logflux_go_sdk.Payload.{assign, assign_all}
use logflux_go_sdk.Retry.Errors.{int_text}
use logflux_go_sdk.Adapters.{
  Sent, Ending, returns, exits, panics, FieldValue, string_value, bytes_value, other_value,
  signed_value, unsigned_value, float_value, bool_value, time_value, duration_value, FieldMap,
  number_list_text, Texts,
}

abbrev pub logrus_panic_level : ℕ
logrus_panic_level = 0

abbrev pub logrus_fatal_level : ℕ
logrus_fatal_level = 1

abbrev pub logrus_error_level : ℕ
logrus_error_level = 2

abbrev pub logrus_warn_level : ℕ
logrus_warn_level = 3

abbrev pub logrus_info_level : ℕ
logrus_info_level = 4

abbrev pub logrus_debug_level : ℕ
logrus_debug_level = 5

abbrev pub logrus_trace_level : ℕ
logrus_trace_level = 6

-- The logger without its client.
pub record LogrusLogger : Type 0 where
  pub level : ℕ

pub record LogrusEntry : Type 0 where
  pub logger : LogrusLogger
  pub data_fields : FieldMap
  pub time : Time
  pub level : ℕ

unfoldable pub new_logrus_logger : LogrusLogger
new_logrus_logger = record { level = logrus_info_level }

unfoldable pub map_logrus_level : ℕ → ℤ
map_logrus_level level =
    if level == logrus_trace_level || level == logrus_debug_level
    then pos 8
    else if level == logrus_info_level
    then log_level_info
    else if level == logrus_warn_level
    then log_level_warning
    else if level == logrus_error_level
    then log_level_error
    else if level == logrus_fatal_level || level == logrus_panic_level
    then log_level_critical
    else log_level_info

-- Bytes, times and durations have no case of their own.
unfoldable pub format_value : Texts → FieldValue → Str
unfolding number_list_text
format_value t (string_value s) = s
format_value t (signed_value n) = int_text n
format_value t (unsigned_value n) = int_text (pos n)
format_value t (float_value x) = t.float_text x
format_value t (bool_value b) = if b then codes "true" else codes "false"
format_value t (bytes_value s) = number_list_text s
format_value t (time_value x) = t.time_default_text x
format_value t (duration_value d) = t.duration_text d
format_value t (other_value s) = s

abbrev pub logrus_field_text : Texts → Str × FieldValue → Str
logrus_field_text t (key, value) = key ++ (codes "=" ++ format_value t value)

unfoldable pub format_message : Texts → Str → FieldMap → Str
unfolding format_value
format_message t message fields =
    if length fields == 0
    then message
    else (let parts = join (codes " ") (map (logrus_field_text t) fields) in
        if not (str_eq message []) then message ++ (codes " " ++ parts) else parts)

abbrev error_value : Option Str → FieldValue
error_value none = string_value (codes "<nil>")
error_value (some e) = string_value e

unfoldable pub with_field : LogrusLogger → Time → Str → FieldValue → LogrusEntry
with_field l now key value = record {
  logger = l;
  data_fields = (key, value) ∷ [];
  time = now;
  level = l.level;
}

unfoldable pub with_fields : LogrusLogger → Time → FieldMap → LogrusEntry
with_fields l now fields = record { logger = l; data_fields = fields; time = now; level = l.level }

unfoldable pub with_error : LogrusLogger → Time → Option Str → LogrusEntry
unfolding with_field
with_error l now e = with_field l now (codes "error") (error_value e)

unfoldable pub with_time : LogrusLogger → Time → LogrusEntry
with_time l time = record { logger = l; data_fields = []; time = time; level = l.level }

unfoldable pub set_level : LogrusLogger → ℕ → LogrusLogger
set_level l level = record l { level = level }

unfoldable pub is_level_enabled : LogrusLogger → ℕ → Bool
is_level_enabled l level = leb level l.level

-- What the methods of a logger do at their level: the call, if any, is at the current time.
unfoldable pub log_at : LogrusLogger → ℕ → Str → Option Sent
unfolding is_level_enabled map_logrus_level
log_at l level message =
    if is_level_enabled l level
    then some (record { text = message; level = map_logrus_level level })
    else none

-- How the methods of a level end.
abbrev ending_at : ℕ → Str → Ending
ending_at level message =
    if level == logrus_fatal_level
    then exits 1
    else if level == logrus_panic_level
    then panics message
    else returns

-- The methods of a logger, `Trace` to `Panic` with their variants, by level.
unfoldable pub call_at : LogrusLogger → ℕ → Str → Option Sent × Ending
unfolding log_at
call_at l level message = (log_at l level message, ending_at level message)

unfoldable pub entry_with_field : LogrusEntry → Str → FieldValue → LogrusEntry
unfolding assign
entry_with_field e key value = record e { data_fields = assign key value e.data_fields }

unfoldable pub entry_with_fields : LogrusEntry → FieldMap → LogrusEntry
unfolding assign_all
entry_with_fields e fields = record e { data_fields = assign_all e.data_fields fields }

unfoldable pub entry_with_error : LogrusEntry → Option Str → LogrusEntry
unfolding entry_with_field
entry_with_error e error = entry_with_field e (codes "error") (error_value error)

unfoldable pub entry_with_time : LogrusEntry → Time → LogrusEntry
entry_with_time e time = record e { time = time }

module _ (t : Texts) where
  abbrev entry_message : LogrusEntry → Str → Str
  entry_message e message = format_message t message e.data_fields

  -- What the methods of an entry do at their level: the call, if any, has the time of the entry.
  unfoldable pub entry_log_at : LogrusEntry → ℕ → Str → Option (Sent × Time)
  unfolding format_message is_level_enabled map_logrus_level
  entry_log_at e level message =
      if is_level_enabled e.logger level
      then some (record { text = entry_message e message; level = map_logrus_level level }, e.time)
      else none

  -- The methods of an entry, `Trace` to `Panic` with their variants, by level.
  unfoldable pub entry_call_at : LogrusEntry → ℕ → Str → Option (Sent × Time) × Ending
  unfolding entry_log_at format_message
  entry_call_at e level message =
      (entry_log_at e level message, ending_at level (entry_message e message))
