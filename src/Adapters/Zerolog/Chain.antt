-- ===== src/Adapters/Zerolog/Chain.antt =====
-- pkg/adapters/zerolog.go: what the chained calls on a logger and on an event come to.
use logflux_go_sdk.Prelude.{
  ◌≡◌, ℤ, pos, negsuc, Bool, ltb_ℤ, true, false, List, [], ◌∷◌, Option, none, some, if◌then◌else◌,
  Str, str_eq,
}
use logflux_go_sdk.Payload.Merge.{first_given}
use logflux_go_sdk.Payload.Json.Keys.{distinct, keys}
use logflux_go_sdk.Adapters.{FieldValue, FieldMap}
use logflux_go_sdk.Adapters.Zerolog.{
  Setting, field_of, set_field, ZerologLogger, ZerologEvent, logger_set, event_set, Opening,
  by_trace, by_debug, by_info, by_warn, by_error, by_fatal, by_panic, by_log,
}

abbrev pub logger_sets : ZerologLogger → List Setting → ZerologLogger
logger_sets l [] = l
logger_sets l (s ∷ ss) = logger_sets (logger_set l s) ss

abbrev pub event_sets : ZerologEvent → List Setting → ZerologEvent
event_sets e [] = e
event_sets e (s ∷ ss) = event_sets (event_set e s) ss

abbrev value_for : Str → Option (Str × FieldValue) → Option FieldValue
value_for k none = none
value_for k (some (j, v)) = if str_eq j k then some v else none

-- The value that the last of the calls for a key gives it.
abbrev pub last_set : Str → List Setting → Option FieldValue
last_set k [] = none
last_set k (s ∷ ss) = first_given (last_set k ss) (value_for k (field_of s))

abbrev set_fields : FieldMap → List Setting → FieldMap
set_fields m [] = m
set_fields m (s ∷ ss) = set_fields (set_field (field_of s) m) ss

abbrev IsDistinct : FieldMap → Type 0
IsDistinct m = distinct (keys m) ≡ true

-- zerolog's order of the levels: an event is kept back below the logger's level, but not one of `Log`.
abbrev pub is_below : Opening → ℤ → Bool
is_below by_trace lowest = ltb_ℤ (negsuc 0) lowest
is_below by_debug lowest = ltb_ℤ (pos 0) lowest
is_below by_info lowest = ltb_ℤ (pos 1) lowest
is_below by_warn lowest = ltb_ℤ (pos 2) lowest
is_below by_error lowest = ltb_ℤ (pos 3) lowest
is_below by_fatal lowest = ltb_ℤ (pos 4) lowest
is_below by_panic lowest = ltb_ℤ (pos 5) lowest
is_below by_log lowest = false

abbrev pub client_level : Opening → ℤ
client_level by_trace = pos 8
client_level by_debug = pos 8
client_level by_info = pos 7
client_level by_warn = pos 5
client_level by_error = pos 4
client_level by_fatal = pos 3
client_level by_panic = pos 3
client_level by_log = pos 7
